-- ===== src/Examples/Callers.antt =====
-- The Go SDK (sdk/go/client.go) at concrete inputs.
use jackrabbit.Base.{
  ℤ, ◌≡◌, refl, some, none, Option, List, [], ◌∷◌, map, true, false, String, string_eq, ◌==◌,
  if◌then◌else◌,
}
use jackrabbit.Models.{Payload, text, other}
use jackrabbit.Server.Hub.{Event, command_dispatch, ping}
use jackrabbit.Server.Store.{postgres}
use jackrabbit.Server.Http
use jackrabbit.Server.Http.{Body}
use jackrabbit.Server.Handlers.Commands
use jackrabbit.Client.Listener.{raw_lines}
use jackrabbit.Client.Listener.Delivered.{written}
use jackrabbit.Sdk.{Client, Network}
use jackrabbit.Sdk.Requests
use jackrabbit.Sdk.Requests.{command_path}
use jackrabbit.Sdk.Errors.{served, got, asked, get_command-get}
use jackrabbit.Sdk.Streams.{stream_sse, Turn, answered, not_answered}
use jackrabbit.Sdk.Streams.Delivered.{patiently, watched, stream_sse-format_sse}
use jackrabbit.Sdk.Logs.{watch_logs, ticks, context_done, Tick}
use jackrabbit.Sdk.Logs.Order.{Climbs, watch_logs-Climbs}
use jackrabbit.Examples.Samples.{db, engine}
use jackrabbit.Examples.Connections.{encode, sendable}

abbrev client : Client
client = record { base_url = "http://server"; token = "secret" }

-- An encoding that keeps the message of an error, and nothing of other bodies.
abbrev encode_body : Body → String
encode_body (Body.error message) = String.◌∷◌ "!" message
encode_body _ = ""

abbrev read_object : String → Option Payload
read_object String.[] = some []
read_object (String.◌∷◌ c s) = some (("error", text s) ∷ [])

-- A server that answers every request by one response.
abbrev answering : Http.Response → Network
answering response = record {
  marshal = λ fields. some "{}";
  as_object = read_object;
  as_objects = λ s. some ((("seq", other "0") ∷ []) ∷ (("seq", other "1") ∷ []) ∷ []);
  can_request = λ method url. true;
  send = λ r. some (served encode_body response);
}

get_command-get_example :
    Requests.get_command
      (answering (Commands.get (postgres engine) engine.parse_uuid db "1").0)
      client
      "1"
    ≡ got (λ cmd. []) (asked (engine.parse_uuid "1") (λ i. ((postgres engine).get_command db i).0))
get_command-get_example =
    get_command-get (postgres engine) engine.parse_uuid db
      (answering (Commands.get (postgres engine) engine.parse_uuid db "1").0) encode_body
      (λ cmd. []) client "1" (record { can_request = refl; sent = refl }) (λ message. refl)
      (λ cmd. refl)

abbrev as_int : String → Option ℤ
as_int s = if s == "0" then some (ℤ.pos 0) else some (ℤ.pos 1)

-- Two ticks with the same answer, then the end.
abbrev two_ticks : List Tick
two_ticks =
    ticks (answering (record { status = 200; body = Body.logs [] })) none
    ∷ ticks (answering (record { status = 200; body = Body.logs [] })) (some 0)
    ∷ context_done
    ∷ []

watch_logs-Climbs_example :
    let w = watch_logs as_int client "1" two_ticks in Climbs as_int (ℤ.pos 0) w.sent w.last_seq
watch_logs-Climbs_example = watch_logs-Climbs as_int client "1" two_ticks

abbrev told_events : List Event
told_events = command_dispatch 7 [] (ℤ.pos 5) ∷ ping ∷ []

stream_sse-format_sse_example :
    (stream_sse
      (λ s. some [])
      (answered 200 (map patiently (raw_lines (written encode told_events))) true)).0
    ≡ map (watched (λ s. some []) encode (λ e. [])) told_events
stream_sse-format_sse_example =
    stream_sse-format_sse (λ s. some []) encode (λ e. []) told_events true
      (sendable _, (sendable _, tt)) (λ e. refl)

abbrev three_failures : List Turn
three_failures =
    record { done_first = false; opening = not_answered; done_after = false }
    ∷ record { done_first = false; opening = answered 500 [] false; done_after = false }
    ∷ record { done_first = false; opening = not_answered; done_after = true }
    ∷ []
