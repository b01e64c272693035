-- ===== src/Client/Listener.antt =====
-- The event stream as text: FormatSSE of server/internal/api/sse/hub.go, and the reader of
-- client/internal/runner/sse.go.
pub mod Scanning
pub mod Delivered
use Prim.Native.Char.{Char, code}
use Prim.Native.String.{◌++◌ as text_append, len}
use jackrabbit.Base.{
  ℕ, String, ℤ, nat_eq, string_eq, ltb, ◌==◌, if◌then◌else◌, Bool, true, false, ◌&&◌, ◌||◌, not,
  Option, none, some, List, [], ◌∷◌, any_of,
}
use jackrabbit.Models.{Payload}
use jackrabbit.Server.Hub.{Event, command_dispatch, ping}

abbrev pub event_type_of : Event → String
event_type_of (command_dispatch _ _ _) = "command_dispatch"
event_type_of ping = "ping"

-- `encode` is json.Marshal of the event's data.
unfoldable pub format_sse : (Event → String) → Event → String
format_sse encode e =
    text_append "event: "
      (text_append (event_type_of e) (text_append "\ndata: " (text_append (encode e) "\n\n")))

pub record CommandEvent : Type 0 where
  pub command_id : String
  pub payload : Payload
  pub timeout_secs : ℤ

-- The white space of unicode.IsSpace.
abbrev spaces : List ℕ
spaces =
    9 ∷ 10 ∷ 11 ∷ 12 ∷ 13 ∷ 32 ∷ 133 ∷ 160 ∷ 5760 ∷ 8192 ∷ 8193 ∷ 8194 ∷ 8195 ∷ 8196 ∷ 8197 ∷ 8198
    ∷ 8199 ∷ 8200 ∷ 8201 ∷ 8202 ∷ 8232 ∷ 8233 ∷ 8239 ∷ 8287 ∷ 12288 ∷ []

unfoldable pub is_space : Char → Bool
unfolding any_of
is_space c = any_of spaces (code c)

unfoldable pub trim_left : String → String
unfolding is_space
trim_left String.[] = String.[]
trim_left (String.◌∷◌ c s) = if is_space c then trim_left s else String.◌∷◌ c s

unfoldable pub keep_unless_space : Char → String → String
unfolding is_space
keep_unless_space c String.[] = if is_space c then String.[] else String.◌∷◌ c String.[]
keep_unless_space c (String.◌∷◌ d s) = String.◌∷◌ c (String.◌∷◌ d s)

unfoldable pub trim_right : String → String
unfolding keep_unless_space
trim_right String.[] = String.[]
trim_right (String.◌∷◌ c s) = keep_unless_space c (trim_right s)

-- strings.TrimSpace.
unfoldable pub trim_space : String → String
unfolding trim_left trim_right
trim_space s = trim_right (trim_left s)

-- strings.HasPrefix and strings.TrimPrefix: what follows a prefix.
unfoldable pub after_prefix : String → String → Option String
after_prefix String.[] s = some s
after_prefix (String.◌∷◌ c prefix) String.[] = none
after_prefix (String.◌∷◌ c prefix) (String.◌∷◌ d s) =
    let rest = after_prefix prefix s in if code c == code d then rest else none

grow : Char → List String → List String
grow c [] = String.◌∷◌ c String.[] ∷ []
grow c (line ∷ lines) = String.◌∷◌ c line ∷ lines

-- bufio.ScanLines, but for the carriage returns.
unfoldable pub raw_lines : String → List String
unfolding grow
raw_lines String.[] = []
raw_lines (String.◌∷◌ c s) =
    let rest = raw_lines s in if code c == b'\n' then String.[] ∷ rest else grow c rest

-- One carriage return at the end of a line is dropped.
unfoldable pub drop_cr : String → String
drop_cr String.[] = String.[]
drop_cr (String.◌∷◌ c String.[]) = if code c == b'\r' then String.[] else String.◌∷◌ c String.[]
drop_cr (String.◌∷◌ c (String.◌∷◌ d s)) = String.◌∷◌ c (drop_cr (String.◌∷◌ d s))

-- The event that the lines since the last empty one have told.
pub record Reader : Type 0 where
  pub event_type : String
  pub event_data : String

abbrev pub fresh : Reader
fresh = record { event_type = ""; event_data = "" }

-- `decode` is parseCommandEvent, by json.Unmarshal; what it refuses is only logged.
abbrev pub dispatched : (String → Option CommandEvent) → Reader → Option CommandEvent
dispatched decode r =
    if r.event_type == "command_dispatch" && not (r.event_data == "")
    then decode r.event_data
    else none

abbrev pub cons_some : Option CommandEvent → List CommandEvent → List CommandEvent
cons_some none events = events
cons_some (some event) events = event ∷ events

unfoldable pub read_line :
    (String → Option CommandEvent) → Reader → String → Option CommandEvent × Reader
unfolding trim_space after_prefix
read_line decode r line = elim (after_prefix "event:" line) [
  | some rest ↦ (none, record r { event_type = trim_space rest })
  | none ↦ elim (after_prefix "data:" line) [
    | some rest ↦ (none, record r { event_data = text_append r.event_data (trim_space rest) })
    | none ↦ if line == "" then (dispatched decode r, fresh) else (none, r)
  ]
]

-- readEvents up to the end of the stream, or to a line that is too long for bufio.Scanner.
unfoldable pub read_events :
    (String → Option CommandEvent) → Reader → List String → List CommandEvent
unfolding read_line drop_cr
read_events decode r [] = []
read_events decode r (line ∷ lines) =
    if ltb (len line) 65536
    then (let (event, r') = read_line decode r (drop_cr line) in
        cons_some event (read_events decode r' lines))
    else []

unfoldable pub read_stream : (String → Option CommandEvent) → String → List CommandEvent
unfolding read_events raw_lines
read_stream decode text = read_events decode fresh (raw_lines text)
