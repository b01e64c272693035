-- ===== src/Sdk/Streams/Backoff.antt =====
-- The sleeps of WatchCommands of sdk/go/client.go.
use jackrabbit.Base.{
  ◌≤◌, String, Bool, true, false, Option, none, some, List, [], ◌∷◌, All, arith, Bool-cases, inl,
  inr,
}
use jackrabbit.Models.{Time, Payload}
use jackrabbit.Client.Connection.{second, max_backoff, doubled}
use jackrabbit.Sdk.Streams.{
  CommandEvent, StreamError, Turn, Watched, after_stream, stream_sse, watch_commands,
}

abbrev pub WithinBounds : Time → Type 0
WithinBounds t = (second ≤ t) × (t ≤ max_backoff)

doubled-WithinBounds : (t : Time) → WithinBounds t → WithinBounds (doubled t)
doubled-WithinBounds t h = ground arith

slept :
    (done_after : Bool) (backoff : Time) (reset later : Watched)
    (heard : List CommandEvent × Option StreamError)
    → WithinBounds backoff
    → All WithinBounds reset.sleeps
    → All WithinBounds later.sleeps
    → All WithinBounds (after_stream done_after backoff reset later heard).sleeps
unfolding after_stream
slept done_after backoff reset later (events, none) h a b = a
slept true backoff reset later (events, some e) h a b = tt
slept false backoff reset later (events, some e) h a b = (h, b)

-- Each sleep of the loop is of one second to thirty, if the back-off it starts with is.
pub watch_commands-WithinBounds :
    (as_object : String → Option Payload) (backoff : Time) (ts : List Turn)
    → WithinBounds backoff
    → All WithinBounds (watch_commands as_object backoff ts).sleeps
unfolding watch_commands
watch_commands-WithinBounds as_object backoff [] h = tt
watch_commands-WithinBounds as_object backoff (t ∷ ts) h = elim (Bool-cases t.done_first) [
  | inl d ↦ rw d tt
  | inr c ↦ rw c (
      slept t.done_after backoff _ _ (stream_sse as_object t.opening) h
        (watch_commands-WithinBounds as_object second ts (omega arith))
        (watch_commands-WithinBounds as_object (doubled backoff) ts
          (doubled-WithinBounds backoff h)))
]
