-- ===== src/Client/Connection/Closing.antt =====
-- The end of the loop of client/internal/runner/sse.go.
use jackrabbit.Base.{
  ◌≡◌, refl, String, Bool, true, false, ◌||◌, not, Option, List, [], ◌∷◌, ◌++◌, Bool-cases, inl,
  inr, arith,
}
use jackrabbit.Models.{Time}
use jackrabbit.Client.Listener.{CommandEvent}
use jackrabbit.Client.Connection.{Turn, doubled, after_error, connect_and_listen, listen}
use jackrabbit.Client.Connection.Waits.{listen-turn}

-- A turn in which the loop finds the context done.
abbrev pub finds_done : Turn → Bool
finds_done t = t.done_first || t.done_after || not t.waits_out

abbrev pub ever_done : List Turn → Bool
ever_done [] = false
ever_done (t ∷ ts) = finds_done t || ever_done ts

module _ (decode : String → Option CommandEvent) where
  last_turn :
      (backoff : Time) (t : Turn) (ts more : List Turn)
      → finds_done t ≡ true
      → ((listen decode backoff (t ∷ ts)).closed ≡ true)
        × (listen decode backoff (t ∷ more) ≡ listen decode backoff (t ∷ ts))
  unfolding after_error
  last_turn backoff t ts more h = elim (Bool-cases t.done_first) [
    | inl d ↦
        rw (listen-turn decode backoff t ts, listen-turn decode backoff t more, d) (refl, refl)
    | inr c ↦
        let d : (t.done_after || not t.waits_out) ≡ true = rw c at h in
        rw (listen-turn decode backoff t ts, listen-turn decode backoff t more, c, d) (refl, refl)
  ]

  pub next_turn :
      (backoff : Time) (t : Turn) (ts : List Turn)
      → finds_done t ≡ false
      → listen decode backoff (t ∷ ts) ≡ record {
        events =
            (connect_and_listen decode t.reply).0 ++ (listen decode (doubled backoff) ts).events;
        waits = backoff ∷ (listen decode (doubled backoff) ts).waits;
        closed = (listen decode (doubled backoff) ts).closed;
      }
  unfolding after_error
  next_turn backoff t ts h =
      let c : t.done_first ≡ false = ground arith in
      let d : (t.done_after || not t.waits_out) ≡ false = ground arith in
      rw (listen-turn decode backoff t ts, c, d) refl

-- The channel is closed exactly if some turn found the context done, and the loop has then returned:
-- no further turn adds an event or a wait.
pub listen_closes :
    (decode : String → Option CommandEvent) (backoff : Time) (ts more : List Turn)
    → ((listen decode backoff ts).closed ≡ ever_done ts)
      × (ever_done ts ≡ true → listen decode backoff (ts ++ more) ≡ listen decode backoff ts)
listen_closes decode backoff [] more = (unfold listen in refl, (λ h. absurd (ground arith)))
listen_closes decode backoff (t ∷ ts) more = elim (Bool-cases (finds_done t)) [
  | inl d ↦
      let (closed, _) = last_turn decode backoff t ts ts d in
      (rw d closed, (λ h. (last_turn decode backoff t ts (ts ++ more) d).1))
  | inr c ↦
      let (closed, same) = listen_closes decode (doubled backoff) ts more in
      (
        rw (next_turn decode backoff t ts c, c) closed,
        (λ h.
            rw
              (
                next_turn decode backoff t ts c,
                next_turn decode backoff t (ts ++ more) c,
                same (rw c at h),
              )
              refl),
      )
]
