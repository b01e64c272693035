-- ===== src/Client/Listener/Delivered.antt =====
-- From FormatSSE of server/internal/api/sse/hub.go to the events that
-- client/internal/runner/sse.go hands on.
use Prim.Native.String.{◌++◌ as text_append, len}
use text.Mathlib.TextLemmas.{nil-append, cons-append, append_assoc}
use jackrabbit.Base.{
  String, ℤ, string_eq, nat_eq, ltb, ◌==◌, ◌≡◌, refl, ap, ◌∙◌, true, false, Option, none, some,
  List, [], ◌∷◌, All,
}
use jackrabbit.Models.{Uuid, Payload}
use jackrabbit.Server.Hub.{Event, command_dispatch, ping}
use jackrabbit.Client.Listener.{
  CommandEvent, cons_some, fresh, format_sse, event_type_of, raw_lines, read_stream, read_events,
  read_line, dispatched, drop_cr, trim_space, after_prefix,
}
use jackrabbit.Client.Listener.Scanning.{has_newline, raw_lines-append, trim_space_led}

-- What json.Marshal gives for the data of an event: one line with no space around it, which fits
-- the scanner's buffer.
pub record IsSendable (encode : Event → String) (e : Event) : Type 0 where
  pub one_line : has_newline (encode e) ≡ false
  pub trimmed : trim_space (encode e) ≡ encode e
  pub not_empty : (encode e == "") ≡ false
  pub no_return : drop_cr (text_append "data: " (encode e)) ≡ text_append "data: " (encode e)
  pub short : ltb (len (text_append "data: " (encode e))) 65536 ≡ true

-- The events as one text, and the commands among them.
unfoldable pub written : (Event → String) → List Event → String
written encode [] = ""
written encode (e ∷ es) = text_append (format_sse encode e) (written encode es)

unfoldable pub commands_of : (Uuid → Payload → ℤ → CommandEvent) → List Event → List CommandEvent
commands_of received [] = []
commands_of received (command_dispatch id payload timeout ∷ es) =
    received id payload timeout ∷ commands_of received es
commands_of received (ping ∷ es) = commands_of received es

regroup :
    (a b n d c more : String)
    → text_append
        (text_append a
          (text_append b (text_append (text_append n d) (text_append c (text_append n n)))))
        more
      ≡ text_append
          (text_append a b)
          (text_append n (text_append (text_append d c) (text_append n (text_append n more))))
regroup a b n d c more = simp append_assoc

lines_apart :
    (encode : Event → String) (e : Event) (more : String)
    → text_append (format_sse encode e) more
      ≡ text_append (text_append "event: " (event_type_of e)) (
          text_append "\n" (
            text_append
              (text_append "data: " (encode e))
              (text_append "\n" (text_append "" (text_append "\n" more)))))
unfolding format_sse
lines_apart encode e more =
    rw (nil-append (text_append "\n" more))
      (regroup "event: " (event_type_of e) "\n" "data: " (encode e) more)

event_line : (e : Event) → has_newline (text_append "event: " (event_type_of e)) ≡ false
unfolding has_newline
event_line (command_dispatch id payload timeout) = refl
event_line ping = refl

pub data_spelled :
    (s : String)
    → text_append "data: " s
      ≡ String.◌∷◌ "d"
          (String.◌∷◌ "a" (String.◌∷◌ "t" (String.◌∷◌ "a" (String.◌∷◌ ":" (String.◌∷◌ " " s)))))
data_spelled s =
    cons-append "d" "ata: " s
    ∙ ap (String.◌∷◌ "d") (
        cons-append "a" "ta: " s
        ∙ ap (String.◌∷◌ "a") (
            cons-append "t" "a: " s
            ∙ ap (String.◌∷◌ "t") (
                cons-append "a" ": " s
                ∙ ap (String.◌∷◌ "a") (
                    cons-append ":" " " s
                    ∙ ap (String.◌∷◌ ":")
                        (cons-append " " "" s ∙ ap (String.◌∷◌ " ") (nil-append s))))))

data_line :
    (encode : Event → String) (e : Event)
    → IsSendable encode e
    → has_newline (text_append "data: " (encode e)) ≡ false
data_line encode e v = rw (data_spelled (encode e)) (unfold has_newline in v.one_line)

-- The lines of one event.
pub lines_of :
    (encode : Event → String) (e : Event) (more : String)
    → IsSendable encode e
    → raw_lines (text_append (format_sse encode e) more)
      ≡ text_append "event: " (event_type_of e)
        ∷ text_append "data: " (encode e)
        ∷ ""
        ∷ raw_lines more
unfolding has_newline
lines_of encode e more v =
    ap raw_lines (lines_apart encode e more)
    ∙ raw_lines-append (text_append "event: " (event_type_of e)) _ (event_line e)
    ∙ ap (◌∷◌ (text_append "event: " (event_type_of e))) (
        raw_lines-append (text_append "data: " (encode e)) _ (data_line encode e v)
        ∙ ap (◌∷◌ (text_append "data: " (encode e))) (raw_lines-append "" more refl))

data_read :
    (decode : String → Option CommandEvent) (encode : Event → String) (e : Event) (kind : String)
    → IsSendable encode e
    → read_line decode
        (record { event_type = kind; event_data = "" })
        (text_append "data: " (encode e))
      ≡ (none, record { event_type = kind; event_data = encode e })
unfolding read_line after_prefix
data_read decode encode e kind v =
    rw (data_spelled (encode e), trim_space_led (encode e), v.trimmed, nil-append (encode e)) refl

-- The event of the three lines, when they have been read.
event_read :
    (decode : String → Option CommandEvent) (encode : Event → String) (e : Event)
    (more : List String)
    → IsSendable encode e
    → read_events decode fresh
        (text_append "event: " (event_type_of e) ∷ text_append "data: " (encode e) ∷ "" ∷ more)
      ≡ cons_some
          (dispatched decode (record { event_type = event_type_of e; event_data = encode e }))
          (read_events decode fresh more)
unfolding read_events read_line after_prefix trim_space drop_cr
event_read decode encode (command_dispatch id payload timeout) more v =
    rw
      (
        v.short,
        v.no_return,
        data_read decode encode (command_dispatch id payload timeout) "command_dispatch" v,
      )
      refl
event_read decode encode ping more v =
    rw (v.short, v.no_return, data_read decode encode ping "ping" v) refl

module _ (encode : Event → String) (decode : String → Option CommandEvent)
    (received : Uuid → Payload → ℤ → CommandEvent)
    (back : (id : Uuid)
      → (payload : Payload) → (timeout : ℤ)
      → decode (encode (command_dispatch id payload timeout))
        ≡ some (received id payload timeout)) where
  told :
      (e : Event) (es : List Event) (rest : List CommandEvent)
      → IsSendable encode e
      → rest ≡ commands_of received es
      → cons_some
          (dispatched decode (record { event_type = event_type_of e; event_data = encode e }))
          rest
        ≡ commands_of received (e ∷ es)
  unfolding commands_of
  told (command_dispatch id payload timeout) es rest v q =
      rw (v.not_empty, back id payload timeout) (ap (◌∷◌ (received id payload timeout)) q)
  told ping es rest v q = q

  events_read :
      (es : List Event)
      → All (IsSendable encode) es
      → read_events decode fresh (raw_lines (written encode es)) ≡ commands_of received es
  unfolding written commands_of
  events_read [] a = unfold raw_lines read_events in refl
  events_read (e ∷ es) a =
      ap (read_events decode fresh) (lines_of encode e (written encode es) a.0)
      ∙ event_read decode encode e (raw_lines (written encode es)) a.0
      ∙ told e es (read_events decode fresh (raw_lines (written encode es))) a.0
          (events_read es a.1)

-- Events that the server formats, one after another, are read by the runner as the commands among
-- them, in order, if each is encoded on one line that fits the scanner's buffer, and decoding a
-- dispatched command gives back what it holds.
pub read_stream-format_sse :
    (encode : Event → String) (decode : String → Option CommandEvent)
    (received : Uuid → Payload → ℤ → CommandEvent) (es : List Event)
    → ((id : Uuid)
        → (payload : Payload) → (timeout : ℤ)
        → decode (encode (command_dispatch id payload timeout))
          ≡ some (received id payload timeout))
    → All (IsSendable encode) es
    → read_stream decode (written encode es) ≡ commands_of received es
unfolding read_stream
read_stream-format_sse encode decode received es back a =
    events_read encode decode received back es a
