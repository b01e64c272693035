-- ===== src/Sdk/Streams.antt =====
-- streamSSE and WatchCommands of sdk/go/client.go.
pub mod Delivered
pub mod Backoff
use Prim.Native.String.{◌++◌ as text_append, len}
use jackrabbit.Base.{
  ℕ, String, nat_eq, string_eq, ltb, ◌==◌, if◌then◌else◌, Bool, true, false, ◌&&◌, not, Option,
  none, some, List, [], ◌∷◌, ◌++◌,
}
use jackrabbit.Models.{Time, Payload}
use jackrabbit.Web.{Request, authorization, joined}
use jackrabbit.Client.Listener.{Reader, fresh, trim_space, after_prefix, drop_cr}
use jackrabbit.Client.Connection.{second, doubled}
use jackrabbit.Sdk.{Client}

pub record CommandEvent : Type 0 where
  pub kind : String
  pub fields : Payload

pub data StreamError : Type 0 where
  no_request no_answer scan_failed cancelled : StreamError
  bad_status : ℕ → StreamError

unfoldable pub stream_request : Client → String → Request (Unit {0})
stream_request c slug = record {
  method = "GET";
  url = joined (c.base_url ∷ "/api/v1/runners/" ∷ slug ∷ "/sse" ∷ []);
  headers = authorization c.token;
  body = tt;
}

abbrev pub event_with : String → Option Payload → Option CommandEvent
event_with kind none = none
event_with kind (some fields) = some (record { kind = kind; fields = fields })

-- The event that has been read, unless its data does not decode.
abbrev pub event_of : (String → Option Payload) → Reader → Option CommandEvent
event_of as_object r = event_with r.event_type (as_object r.event_data)

-- A line of the loop. What has been read is kept over an empty line until it has a type and data.
unfoldable pub take_line :
    (String → Option Payload) → Reader → String → Option CommandEvent × Reader
unfolding trim_space after_prefix
take_line as_object r line = elim (after_prefix "event:" line) [
  | some rest ↦ (none, record r { event_type = trim_space rest })
  | none ↦ elim (after_prefix "data:" line) [
    | some rest ↦ (none, record r { event_data = text_append r.event_data (trim_space rest) })
    | none ↦
        if line == "" && not (r.event_type == "") && not (r.event_data == "")
        then (event_of as_object r, fresh)
        else (none, r)
  ]
]

-- An event is put on the channel, unless the context is done first.
unfoldable pub put_event :
    Bool
    → Option CommandEvent
    → List CommandEvent × Option StreamError
    → List CommandEvent × Option StreamError
put_event gives_up none rest = rest
put_event gives_up (some event) (events, error) =
    if gives_up then ([], some cancelled) else (event ∷ events, error)

-- The loop over the body. Each line comes with whether the context is done before the event that it
-- completes is taken; `broken` says that reading the body fails at the end.
unfoldable pub take_lines :
    (String → Option Payload)
    → Reader
    → List (String × Bool)
    → Bool
    → List CommandEvent × Option StreamError
unfolding take_line drop_cr put_event
take_lines as_object r [] broken = ([], if broken then some scan_failed else none)
take_lines as_object r ((line, gives_up) ∷ lines) broken =
    let (event, r') = take_line as_object r (drop_cr line) in
    let rest = take_lines as_object r' lines broken in
    if ltb (len line) 65536 then put_event gives_up event rest else ([], some scan_failed)

-- What comes of the request.
pub data Opening : Type 0 where
  not_made not_answered : Opening
  answered : ℕ → List (String × Bool) → Bool → Opening

unfoldable pub stream_sse :
    (String → Option Payload) → Opening → List CommandEvent × Option StreamError
unfolding take_lines
stream_sse as_object not_made = ([], some no_request)
stream_sse as_object not_answered = ([], some no_answer)
stream_sse as_object (answered status lines broken) =
    if status == 200
    then take_lines as_object fresh lines broken
    else ([], some (bad_status status))

-- A turn of the loop of WatchCommands: whether the context is done at its head, what comes of the
-- request, and whether the context is done when streamSSE has failed.
pub record Turn : Type 0 where
  pub done_first : Bool
  pub opening : Opening
  pub done_after : Bool

-- The events put on the channel, the sleeps, and whether the channel is closed.
pub record Watched : Type 0 where
  pub events : List CommandEvent
  pub sleeps : List Time
  pub closed : Bool

abbrev pub over : Watched
over = record { events = []; sleeps = []; closed = true }

-- The rest of the loop is given for the back-off that it goes on with.
unfoldable pub after_stream :
    Bool → Time → Watched → Watched → List CommandEvent × Option StreamError → Watched
after_stream done_after backoff reset later (events, none) = record reset {
  events = events ++ reset.events;
}
after_stream done_after backoff reset later (events, some e) =
    if done_after
    then record over { events = events }
    else record later { events = events ++ later.events; sleeps = backoff ∷ later.sleeps }

-- WatchCommands, from a back-off on, for as many turns as it has made.
unfoldable pub watch_commands : (String → Option Payload) → Time → List Turn → Watched
unfolding after_stream stream_sse
watch_commands as_object backoff [] = record { events = []; sleeps = []; closed = false }
watch_commands as_object backoff (t ∷ ts) =
    let reset = watch_commands as_object second ts in
    let later = watch_commands as_object (doubled backoff) ts in
    if t.done_first
    then over
    else after_stream t.done_after backoff reset later (stream_sse as_object t.opening)
