-- ===== src/Examples/Connections.antt =====
-- The loop of client/internal/runner/sse.go at concrete turns.
use jackrabbit.Base.{
  ℤ, ◌*◌, ◌^◌, min, ◌≡◌, refl, some, Option, List, [], ◌∷◌, ◌++◌, map, get_elem?, true, false,
  String,
}
use jackrabbit.Models.{Uuid, Payload}
use jackrabbit.Server.Hub.{Event, command_dispatch, ping}
use jackrabbit.Client.Listener.{CommandEvent, trim_space, drop_cr}
use jackrabbit.Client.Listener.Scanning.{has_newline}
use jackrabbit.Client.Listener.Delivered.{IsSendable, commands_of}
use jackrabbit.Client.Connection.{
  Turn, not_answered, answered, second, max_backoff, listen, connect_and_listen,
}
use jackrabbit.Client.Connection.Waits.{listen_waits}
use jackrabbit.Client.Connection.Closing.{listen_closes, ever_done}
use jackrabbit.Client.Connection.Deliveries.{Session, session_turn, all_sent, listen-format_sse}

-- An encoding for the examples: it keeps the identifier 7 only.
abbrev pub encode : Event → String
encode e = "{}"

abbrev pub received : Uuid → Payload → ℤ → CommandEvent
received id payload timeout = record { command_id = "7"; payload = []; timeout_secs = ℤ.pos 5 }

abbrev pub decode : String → Option CommandEvent
decode s = some (received 7 [] (ℤ.pos 5))

pub sendable : (e : Event) → IsSendable encode e
unfolding has_newline trim_space drop_cr
sendable e = record {
  one_line = refl;
  trimmed = refl;
  not_empty = refl;
  no_return = refl;
  short = refl;
}

abbrev unreachable : Turn
unreachable = record {
  done_first = false;
  reply = not_answered;
  done_after = false;
  waits_out = true;
}

-- A connection that was made, and ended.
abbrev ended : Turn
ended = record unreachable { reply = answered 200 [] false }

abbrev stopping : Turn
stopping = record unreachable { waits_out = false }

third_wait :
    get_elem? (listen decode second (unreachable ∷ ended ∷ unreachable ∷ [])).waits 2
    ≡ some (4 * second)
unfolding listen connect_and_listen
third_wait = refl

listen_waits_example : 4 * second ≡ min (2 ^ 2 * second) max_backoff
listen_waits_example =
    listen_waits decode (unreachable ∷ ended ∷ unreachable ∷ []) 2 (4 * second) third_wait

listen_closes_example :
    ((listen decode second (ended ∷ stopping ∷ [])).closed ≡ ever_done (ended ∷ stopping ∷ []))
    × (ever_done (ended ∷ stopping ∷ []) ≡ true
        → listen decode second ((ended ∷ stopping ∷ []) ++ ended ∷ [])
          ≡ listen decode second (ended ∷ stopping ∷ []))
listen_closes_example = listen_closes decode second (ended ∷ stopping ∷ []) (ended ∷ [])

abbrev sessions : List Session
sessions =
    record { sent = command_dispatch 7 [] (ℤ.pos 5) ∷ ping ∷ []; broken = true }
    ∷ record { sent = ping ∷ command_dispatch 7 [] (ℤ.pos 5) ∷ []; broken = false }
    ∷ []

listen-format_sse_example :
    let heard = listen decode second (map (session_turn encode) sessions) in
    (heard.events ≡ commands_of received (all_sent sessions)) × (heard.closed ≡ false)
listen-format_sse_example =
    listen-format_sse encode decode received second sessions (λ id payload timeout. refl)
      ((sendable _, (sendable _, tt)), ((sendable _, (sendable _, tt)), tt))
