-- ===== src/Client/Connection.antt =====
-- The connection of client/internal/runner/sse.go: readEvents with what interrupts it,
-- connectAndListen, and the loop of listen with its back-off.
pub mod Waits
pub mod Closing
pub mod Deliveries
use Prim.Native.String.{len}
use jackrabbit.Base.{
  ℕ, ◌*◌, String, nat_eq, ltb, ◌==◌, if◌then◌else◌, Bool, true, false, ◌||◌, not, Option, none,
  some, List, [], ◌∷◌, ◌++◌,
}
use jackrabbit.Models.{Time}
use jackrabbit.Web.{Request, authorization, joined}
use jackrabbit.Client.Listener.{CommandEvent, Reader, fresh, read_line, drop_cr}

-- What the select before a line finds.
pub data Signal : Type 0 where
  quiet context_done reconnect : Signal

-- A line that has been scanned, what the select finds before it is looked at, and whether the
-- context is done before the runner takes the event that the line completes.
pub record Incoming : Type 0 where
  pub line : String
  pub before : Signal
  pub gives_up : Bool

-- The errors. `cancelled` is ctx.Err().
pub data Error : Type 0 where
  cancelled manual_reconnect scanner_error connection_closed : Error
  no_request no_answer : Error
  bad_status : ℕ → Error

-- An event is put in front of those that follow, unless the context is done first.
hand_over :
    Bool → Option CommandEvent → List CommandEvent × Option Error → List CommandEvent × Option Error
hand_over gives_up none rest = rest
hand_over gives_up (some event) (events, error) =
    if gives_up then ([], some cancelled) else (event ∷ events, error)

-- The select before a line, with what comes of the line and the rest.
select_before : Signal → List CommandEvent × Option Error → List CommandEvent × Option Error
select_before context_done heard = ([], some cancelled)
select_before reconnect heard = ([], some manual_reconnect)
select_before quiet heard = heard

-- readEvents: the events that were handed on, and the error it returns. `broken` says that the read
-- of the body fails at the end, where it could have found the end of the stream.
unfoldable pub read_body :
    (String → Option CommandEvent)
    → Reader
    → List Incoming
    → Bool
    → List CommandEvent × Option Error
unfolding read_line drop_cr hand_over select_before
read_body decode r [] broken = ([], some (if broken then scanner_error else connection_closed))
read_body decode r (i ∷ is) broken =
    let (event, r') = read_line decode r (drop_cr i.line) in
    let rest = read_body decode r' is broken in
    if ltb (len i.line) 65536
    then select_before i.before (hand_over i.gives_up event rest)
    else ([], some scanner_error)

-- What comes of a request: none could be made, none was answered, or an answer with its status and
-- its body.
pub data Reply : Type 0 where
  not_made not_answered : Reply
  answered : ℕ → List Incoming → Bool → Reply

unfoldable pub listen_request : String → String → String → Request (Unit {0})
listen_request server slug token = record {
  method = "GET";
  url = joined (server ∷ "/api/v1/runners/" ∷ slug ∷ "/sse" ∷ []);
  headers =
      authorization token ++ ("Accept", "text/event-stream") ∷ ("Cache-Control", "no-cache") ∷ [];
  body = tt;
}

unfoldable pub connect_and_listen :
    (String → Option CommandEvent) → Reply → List CommandEvent × Option Error
unfolding read_body
connect_and_listen decode not_made = ([], some no_request)
connect_and_listen decode not_answered = ([], some no_answer)
connect_and_listen decode (answered status lines broken) =
    if status == 200 then read_body decode fresh lines broken else ([], some (bad_status status))

-- time.Second, in nanoseconds, and the bounds of the back-off.
abbrev pub second : Time
second = 1_000_000_000

abbrev pub max_backoff : Time
max_backoff = 30 * second

abbrev pub doubled : Time → Time
doubled backoff = if ltb max_backoff (backoff * 2) then max_backoff else backoff * 2

-- One turn of the loop: whether the context is done at its head, what comes of the connection,
-- whether the context is done when it has failed, and whether the wait is over before the context
-- is done.
pub record Turn : Type 0 where
  pub done_first : Bool
  pub reply : Reply
  pub done_after : Bool
  pub waits_out : Bool

-- The events put on the channel, the waits, and whether the channel is closed.
pub record Heard : Type 0 where
  pub events : List CommandEvent
  pub waits : List Time
  pub closed : Bool

abbrev pub stopped : Heard
stopped = record { events = []; waits = []; closed = true }

unfoldable pub after_error : Turn → Time → Heard → Heard
after_error t backoff rest =
    if t.done_after || not t.waits_out
    then stopped
    else record rest { waits = backoff ∷ rest.waits }

-- The rest of the loop is given for the back-off that it goes on with.
after_connection : Turn → Time → Heard → Heard → List CommandEvent × Option Error → Heard
unfolding after_error
after_connection t backoff reset later (events, none) = record reset {
  events = events ++ reset.events;
}
after_connection t backoff reset later (events, some e) =
    let heard = after_error t backoff later in record heard { events = events ++ heard.events }

-- listen, from a back-off on, for as many turns as it has made.
unfoldable pub listen : (String → Option CommandEvent) → Time → List Turn → Heard
unfolding after_connection connect_and_listen
listen decode backoff [] = record { events = []; waits = []; closed = false }
listen decode backoff (t ∷ ts) =
    let reset = listen decode second ts in
    let later = listen decode (doubled backoff) ts in
    if t.done_first
    then stopped
    else after_connection t backoff reset later (connect_and_listen decode t.reply)
