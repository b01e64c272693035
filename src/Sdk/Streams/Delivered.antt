-- ===== src/Sdk/Streams/Delivered.antt =====
-- From FormatSSE of server/internal/api/sse/hub.go to the events of streamSSE of sdk/go/client.go.
use Prim.Native.String.{◌++◌ as text_append}
use text.Mathlib.TextLemmas.{nil-append}
use jackrabbit.Base.{
  String, nat_eq, string_eq, ◌≡◌, refl, ap, ◌∙◌, false, Bool, Option, none, some, List, [], ◌∷◌,
  All, map,
}
use jackrabbit.Models.{Payload}
use jackrabbit.Server.Hub.{Event, command_dispatch, ping}
use jackrabbit.Client.Listener.{fresh, event_type_of, raw_lines, trim_space, after_prefix, drop_cr}
use jackrabbit.Client.Listener.Scanning.{trim_space_led}
use jackrabbit.Client.Listener.Delivered.{IsSendable, written, lines_of, data_spelled}
use jackrabbit.Sdk.Streams.{CommandEvent, take_line, take_lines, put_event, stream_sse, answered}

-- A line after which the context is not done.
abbrev pub patiently : String → String × Bool
patiently line = (line, false)

module _ (as_object : String → Option Payload) (encode : Event → String)
    (fields : Event → Payload) where
  data_taken :
      (e : Event) (kind : String)
      → IsSendable encode e
      → take_line as_object
          (record { event_type = kind; event_data = "" })
          (text_append "data: " (encode e))
        ≡ (none, record { event_type = kind; event_data = encode e })
  unfolding take_line after_prefix
  data_taken e kind v =
      rw (data_spelled (encode e), trim_space_led (encode e), v.trimmed, nil-append (encode e)) refl

  event_taken :
      (e : Event) (more : List (String × Bool)) (broken : Bool)
      → IsSendable encode e
      → as_object (encode e) ≡ some (fields e)
      → (take_lines as_object fresh
          (patiently (text_append "event: " (event_type_of e))
            ∷ patiently (text_append "data: " (encode e))
            ∷ patiently ""
            ∷ more)
          broken).0
        ≡ record { kind = event_type_of e; fields = fields e }
          ∷ (take_lines as_object fresh more broken).0
  unfolding take_lines take_line put_event after_prefix trim_space drop_cr
  event_taken (command_dispatch id payload timeout) more broken v back =
      rw
        (
          v.short,
          v.no_return,
          data_taken (command_dispatch id payload timeout) "command_dispatch" v,
          v.not_empty,
          back,
        )
        refl
  event_taken ping more broken v back =
      rw (v.short, v.no_return, data_taken ping "ping" v, v.not_empty, back) refl

  -- What the SDK's caller gets of an event.
  abbrev pub watched : Event → CommandEvent
  watched e = record { kind = event_type_of e; fields = fields e }

  events_taken :
      (es : List Event) (broken : Bool)
      → All (IsSendable encode) es
      → ((e : Event) → as_object (encode e) ≡ some (fields e))
      → (take_lines as_object fresh (map patiently (raw_lines (written encode es))) broken).0
        ≡ map watched es
  unfolding written
  events_taken [] broken a back = unfold raw_lines take_lines in refl
  events_taken (e ∷ es) broken a back =
      ap (λ lines. (take_lines as_object fresh (map patiently lines) broken).0)
        (lines_of encode e (written encode es) a.0)
      ∙ event_taken e (map patiently (raw_lines (written encode es))) broken a.0 (back e)
      ∙ ap (◌∷◌ (watched e)) (events_taken es broken a.1 back)

-- Events that the server formats, one after another, reach the caller of the SDK all, pings too, in
-- order, each with its type and its object, if each is encoded on one line that fits the scanner's
-- buffer and that decodes to its object.
pub stream_sse-format_sse :
    (as_object : String → Option Payload) (encode : Event → String) (fields : Event → Payload)
    (es : List Event) (broken : Bool)
    → All (IsSendable encode) es
    → ((e : Event) → as_object (encode e) ≡ some (fields e))
    → (stream_sse as_object (answered 200 (map patiently (raw_lines (written encode es))) broken)).0
      ≡ map (watched as_object encode fields) es
unfolding stream_sse
stream_sse-format_sse as_object encode fields es broken a back =
    events_taken as_object encode fields es broken a back
