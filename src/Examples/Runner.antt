-- ===== src/Examples/Runner.antt =====
-- The runner's side (client/internal) at concrete inputs.
use jackrabbit.Base.{
  ℕ, ℤ, leb_ℤ, ◌≡◌, refl, some, Option, List, [], ◌∷◌, ◌++◌, All, true, false, String, string_eq,
}
use jackrabbit.Models.{Uuid, Payload, text}
use jackrabbit.Dict
use jackrabbit.Server.Hub.{Event, command_dispatch, ping}
use jackrabbit.Client.Lines.{Bytes, ends_with_newline, stream_output}
use jackrabbit.Client.Lines.Streaming.{shown, flatten, stream_output_lem}
use jackrabbit.Client.Lines.Splitting.{IsOneLine, unlines, terminated}
use jackrabbit.Client.Lines.Repeats.{stream_output_repeats}
use jackrabbit.Client.Shipping.{new_shipper}
use jackrabbit.Client.Shipping.Flushes
use jackrabbit.Client.Shipping.Flushes.{
  shipped_first, added, IsFlushing, steps_lem, adds, flushes, runs_pending,
}
use jackrabbit.Client.Executor.{active_count}
use jackrabbit.Client.Listener.{CommandEvent, trim_space, drop_cr}
use jackrabbit.Client.Listener.Scanning.{has_newline}
use jackrabbit.Client.Listener.Delivered.{IsSendable}
use jackrabbit.Client.Lifecycle.{Runner, cmd_of}
use jackrabbit.Client.Lifecycle.Sequences.{Line}

abbrev ab_c : Bytes
ab_c = b'a' ∷ b'b' ∷ b'\n' ∷ b'c' ∷ []

whole : All (λ chunk. ends_with_newline chunk ≡ true) ((b'x' ∷ b'\n' ∷ []) ∷ [])
unfolding ends_with_newline
whole = (refl, tt)

stream_output_lem_example :
    (lines : List Bytes) × All IsOneLine lines
    × (unlines lines ≡ terminated (flatten ((b'x' ∷ b'\n' ∷ []) ∷ []) ++ ab_c))
    × (stream_output (λ n. true) ((b'x' ∷ b'\n' ∷ []) ∷ ab_c ∷ []) ≡ shown lines)
stream_output_lem_example =
    stream_output_lem (λ n. true) ((b'x' ∷ b'\n' ∷ []) ∷ []) ab_c (λ n. refl) whole

-- "ab", and then "c" with the newline.
stream_output_repeats_example :
    stream_output (λ n. true) ((b'a' ∷ b'b' ∷ []) ∷ (b'c' ∷ b'\n' ∷ []) ∷ [])
    ≡ (b'a' ∷ b'b' ∷ b'c' ∷ []) ∷ (b'a' ∷ b'b' ∷ []) ∷ []
stream_output_repeats_example =
    stream_output_repeats (λ n. true) b'a' (b'b' ∷ []) (b'c' ∷ []) (λ n. refl) (refl, (refl, tt))
      (refl, tt)

abbrev history : List (Flushes.Step ℕ)
history = adds 1 ∷ adds 2 ∷ flushes false ∷ adds 3 ∷ runs_pending true ∷ adds 4 ∷ []

steps_lem_example :
    let s = Flushes.steps new_shipper history in
    (shipped_first s.batches s.buffer ≡ added history) × IsFlushing s
steps_lem_example = steps_lem history

-- An encoding for the examples: it keeps the identifier 7 only.
abbrev encode : Event → String
encode e = "{}"

abbrev received : Uuid → Payload → ℤ → CommandEvent
received id payload timeout = record { command_id = "7"; payload = []; timeout_secs = ℤ.pos 5 }

abbrev decode : String → Option CommandEvent
decode s = some (record { command_id = "7"; payload = []; timeout_secs = ℤ.pos 5 })

sendable : (e : Event) → IsSendable encode e
unfolding has_newline trim_space drop_cr
sendable e = record {
  one_line = refl;
  trimmed = refl;
  not_empty = refl;
  no_return = refl;
  short = refl;
}

abbrev events : List Event
events = command_dispatch 7 [] (ℤ.pos 5) ∷ ping ∷ command_dispatch 7 [] (ℤ.pos 5) ∷ []

abbrev event : CommandEvent
event = record { command_id = "7"; payload = ("cmd", text "ls") ∷ []; timeout_secs = ℤ.pos 5 }

abbrev runner : Runner
runner = record {
  max_concurrency = ℤ.pos 2;
  executor = ("7", record { started_at = 3; cancelled = false }) ∷ [];
  active_command = "7";
  log_seq = ("7", 4) ∷ [];
  shipped = [];
  reported = [];
}

is_found : Dict.lookup "7" runner.executor ≡ some (record { started_at = 3; cancelled = false })
unfolding Dict.lookup
is_found = refl

has_room : leb_ℤ runner.max_concurrency (ℤ.pos (active_count runner.executor)) ≡ false
unfolding active_count
has_room = refl

has_cmd : cmd_of event.payload ≡ some "ls"
unfolding cmd_of Dict.lookup
has_cmd = refl

abbrev lines : List Line
lines =
    record { command_id = "7"; source = "stdout"; line = "a" }
    ∷ record { command_id = "8"; source = "stdout"; line = "b" }
    ∷ record { command_id = "7"; source = "stderr"; line = "c" }
    ∷ []
