-- ===== src/Client/Connection/Deliveries.antt =====
-- The events that client/internal/runner/sse.go hands on over several connections.
use Prim.Native.String.{len}
use jackrabbit.Base.{
  ◌≡◌, refl, ap, ap₂, sym, ◌∙◌, String, ℤ, ltb, nat_eq, Bool, true, false, Option, none, some, List,
  [], ◌∷◌, ◌++◌, map, All, Bool-cases, inl, inr,
}
use jackrabbit.Models.{Time, Uuid, Payload}
use jackrabbit.Server.Hub.{Event, command_dispatch, ping}
use jackrabbit.Client.Listener.{
  CommandEvent, Reader, fresh, cons_some, raw_lines, read_line, drop_cr, read_events, read_stream,
}
use jackrabbit.Client.Listener.Delivered.{IsSendable, written, commands_of, read_stream-format_sse}
use jackrabbit.Client.Connection.{
  Incoming, quiet, Error, hand_over, select_before, read_body, answered, connect_and_listen, Turn,
  doubled, listen,
}
use jackrabbit.Client.Connection.Closing.{next_turn}

-- A line that nothing interrupts.
abbrev pub quietly : String → Incoming
quietly line = record { line = line; before = quiet; gives_up = false }

handed_over :
    (event : Option CommandEvent) (rest : List CommandEvent × Option Error)
    → (hand_over false event rest).0 ≡ cons_some event rest.0
unfolding hand_over
handed_over none rest = refl
handed_over (some event) rest = refl

-- With nothing to interrupt it, the body gives what `read_events` reads off its lines.
pub read_body-quietly :
    (decode : String → Option CommandEvent) (r : Reader) (lines : List String) (broken : Bool)
    → (read_body decode r (map quietly lines) broken).0 ≡ read_events decode r lines
unfolding read_body read_events select_before
read_body-quietly decode r [] broken = refl
read_body-quietly decode r (line ∷ lines) broken = elim (Bool-cases (ltb (len line) 65536)) [
  | inl t ↦ rw t (
      handed_over (read_line decode r (drop_cr line)).0 _
      ∙ ap (cons_some (read_line decode r (drop_cr line)).0)
          (read_body-quietly decode (read_line decode r (drop_cr line)).1 lines broken))
  | inr f ↦ rw f refl
]

-- A connection over which the server sends events until it ends, one way or the other.
pub record Session : Type 0 where
  pub sent : List Event
  pub broken : Bool

abbrev pub session_turn : (Event → String) → Session → Turn
session_turn encode s = record {
  done_first = false;
  reply = answered 200 (map quietly (raw_lines (written encode s.sent))) s.broken;
  done_after = false;
  waits_out = true;
}

abbrev pub all_sent : List Session → List Event
all_sent [] = []
all_sent (s ∷ ss) = s.sent ++ all_sent ss

commands_of-append :
    (received : Uuid → Payload → ℤ → CommandEvent) (es fs : List Event)
    → commands_of received (es ++ fs) ≡ commands_of received es ++ commands_of received fs
unfolding commands_of
commands_of-append received [] fs = refl
commands_of-append received (command_dispatch id payload timeout ∷ es) fs =
    ap (◌∷◌ (received id payload timeout)) (commands_of-append received es fs)
commands_of-append received (ping ∷ es) fs = commands_of-append received es fs

session_events :
    (encode : Event → String) (decode : String → Option CommandEvent)
    (received : Uuid → Payload → ℤ → CommandEvent) (s : Session)
    → ((id : Uuid)
        → (payload : Payload) → (timeout : ℤ)
        → decode (encode (command_dispatch id payload timeout))
          ≡ some (received id payload timeout))
    → All (IsSendable encode) s.sent
    → (connect_and_listen decode (session_turn encode s).reply).0 ≡ commands_of received s.sent
unfolding connect_and_listen read_stream
session_events encode decode received s back a =
    read_body-quietly decode fresh (raw_lines (written encode s.sent)) s.broken
    ∙ read_stream-format_sse encode decode received s.sent back a

-- Over any number of connections that end, each after some events that the server formats, the
-- runner receives every command among the events, once, in order, and goes on listening; if each
-- event is encoded on one line that fits the scanner's buffer, and decoding a dispatched command
-- gives back what it holds.
pub listen-format_sse :
    (encode : Event → String) (decode : String → Option CommandEvent)
    (received : Uuid → Payload → ℤ → CommandEvent) (backoff : Time) (ss : List Session)
    → ((id : Uuid)
        → (payload : Payload) → (timeout : ℤ)
        → decode (encode (command_dispatch id payload timeout))
          ≡ some (received id payload timeout))
    → All (λ s. All (IsSendable encode) s.sent) ss
    → let heard = listen decode backoff (map (session_turn encode) ss) in
      (heard.events ≡ commands_of received (all_sent ss)) × (heard.closed ≡ false)
listen-format_sse encode decode received backoff [] back a =
    (unfold listen commands_of in refl, unfold listen in refl)
listen-format_sse encode decode received backoff (s ∷ ss) back a =
    let (events, closed) = listen-format_sse encode decode received (doubled backoff) ss back a.1 in
    rw (next_turn decode backoff (session_turn encode s) (map (session_turn encode) ss) refl) (
      ap₂ ◌++◌ (session_events encode decode received s back a.0) events
          ∙ sym (commands_of-append received s.sent (all_sent ss)),
      closed,
    )
