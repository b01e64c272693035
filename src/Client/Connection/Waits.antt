-- ===== src/Client/Connection/Waits.antt =====
-- The waits between the connections of client/internal/runner/sse.go.
use jackrabbit.Base.{
  some-injective, none-ne-some, ℕ, zero, suc, ◌+◌, ◌*◌, ◌^◌, min, ◌≡◌, ◌⊎◌, refl, ap, sym, ◌∙◌,
  String, ltb, nat_eq, ◌==◌, if◌then◌else◌, Bool, true, false, ◌||◌, not, Option, none, some, List,
  [], ◌∷◌, ◌++◌, get_elem?, arith, Bool-cases, inl, inr,
}
use Prim.Native.String.{len}
use jackrabbit.Models.{Time}
use jackrabbit.Client.Listener.{CommandEvent, Reader, fresh, read_line, drop_cr}
use jackrabbit.Client.Connection.{
  Signal, quiet, context_done, reconnect, Incoming, Error, cancelled, manual_reconnect,
  scanner_error, connection_closed, hand_over, select_before, read_body, Reply, not_made,
  not_answered, answered, connect_and_listen, second, max_backoff, doubled, Turn, stopped,
  after_error, after_connection, listen, no_request, no_answer, bad_status,
}

hand_over-fails :
    (gives_up : Bool) (event : Option CommandEvent) (rest : List CommandEvent × Option Error)
    → (e : Error) × (rest.1 ≡ some e)
    → (e : Error) × ((hand_over gives_up event rest).1 ≡ some e)
unfolding hand_over
hand_over-fails gives_up none rest h = h
hand_over-fails true (some event) rest h = (cancelled, refl)
hand_over-fails false (some event) rest h = h

select_before-fails :
    (signal : Signal) (heard : List CommandEvent × Option Error)
    → (e : Error) × (heard.1 ≡ some e)
    → (e : Error) × ((select_before signal heard).1 ≡ some e)
unfolding select_before
select_before-fails context_done heard h = (cancelled, refl)
select_before-fails reconnect heard h = (manual_reconnect, refl)
select_before-fails quiet heard h = h

read_body-fails :
    (decode : String → Option CommandEvent) (r : Reader) (is : List Incoming) (broken : Bool)
    → (e : Error) × ((read_body decode r is broken).1 ≡ some e)
unfolding read_body
read_body-fails decode r [] broken = (if broken then scanner_error else connection_closed, refl)
read_body-fails decode r (i ∷ is) broken =
    let ih = read_body-fails decode (read_line decode r (drop_cr i.line)).1 is broken in
    elim (Bool-cases (ltb (len i.line) 65536)) [
      | inl t ↦ rw t (select_before-fails i.before _ (hand_over-fails i.gives_up _ _ ih))
      | inr f ↦ rw f (scanner_error, refl)
    ]

-- Whatever comes of a connection, it ends with an error.
pub connect_and_listen-fails :
    (decode : String → Option CommandEvent) (reply : Reply)
    → (e : Error) × ((connect_and_listen decode reply).1 ≡ some e)
unfolding connect_and_listen
connect_and_listen-fails decode not_made = (no_request, refl)
connect_and_listen-fails decode not_answered = (no_answer, refl)
connect_and_listen-fails decode (answered status lines broken) = elim (Bool-cases (status == 200)) [
  | inl t ↦ rw t (read_body-fails decode fresh lines broken)
  | inr f ↦ rw f (bad_status status, refl)
]

-- A turn of the loop: the branch that sets the back-off to a second is never taken.
pub listen-turn :
    (decode : String → Option CommandEvent) (backoff : Time) (t : Turn) (ts : List Turn)
    → listen decode backoff (t ∷ ts) ≡ (
        if t.done_first
        then stopped
        else (let heard = after_error t backoff (listen decode (doubled backoff) ts) in
            record heard { events = (connect_and_listen decode t.reply).0 ++ heard.events }))
unfolding listen after_connection
listen-turn decode backoff t ts =
    let (e, h) = connect_and_listen-fails decode t.reply in
    rw (connect_lem (connect_and_listen decode t.reply) e h) refl
  where
    connect_lem :
        (heard : List CommandEvent × Option Error) (e : Error)
        → heard.1 ≡ some e
        → heard ≡ (heard.0, some e)
    connect_lem heard e h = ap (λ o. (heard.0, o)) h

-- The n-th back-off.
abbrev pub backoff_after : ℕ → Time
backoff_after n = min (2 ^ n * second) max_backoff

doubled_lem : (n : ℕ) → doubled (backoff_after n) ≡ backoff_after (suc n)
doubled_lem n = ground arith

waits-turn :
    (decode : String → Option CommandEvent) (backoff : Time) (t : Turn) (ts : List Turn)
    → ((listen decode backoff (t ∷ ts)).waits ≡ [])
      ⊎ ((listen decode backoff (t ∷ ts)).waits
          ≡ backoff ∷ (listen decode (doubled backoff) ts).waits)
unfolding after_error
waits-turn decode backoff t ts = elim (Bool-cases t.done_first) [
  | inl d ↦ inl (rw (listen-turn decode backoff t ts, d) refl)
  | inr c ↦ elim (Bool-cases (t.done_after || not t.waits_out)) [
    | inl d ↦ inl (rw (listen-turn decode backoff t ts, c, d) refl)
    | inr o ↦ inr (rw (listen-turn decode backoff t ts, c, o) refl)
  ]
]

waits_from :
    (decode : String → Option CommandEvent) (ts : List Turn) (n i : ℕ) (w : Time)
    → get_elem? (listen decode (backoff_after n) ts).waits i ≡ some w
    → w ≡ backoff_after (n + i)
unfolding listen
waits_from decode [] n i w h = absurd (none-ne-some h)
waits_from decode (t ∷ ts) n zero w h = elim (waits-turn decode (backoff_after n) t ts) [
  | inl e ↦ absurd (none-ne-some (ap (λ ws. get_elem? ws 0) (sym e) ∙ h))
  | inr e ↦ some-injective (sym h ∙ ap (λ ws. get_elem? ws 0) e) ∙ ap backoff_after (omega arith)
]
waits_from decode (t ∷ ts) n (suc i) w h = elim (waits-turn decode (backoff_after n) t ts) [
  | inl e ↦ absurd (none-ne-some (ap (λ ws. get_elem? ws (suc i)) (sym e) ∙ h))
  | inr e ↦
      let later : get_elem? (listen decode (backoff_after (suc n)) ts).waits i ≡ some w =
        ap (λ b. get_elem? (listen decode b ts).waits i) (sym (doubled_lem n))
        ∙ sym (ap (λ ws. get_elem? ws (suc i)) e)
        ∙ h in
      waits_from decode ts (suc n) i w later ∙ ap backoff_after (omega arith)
]

-- The waits between connections are one second, two, four and so on up to thirty, whatever came of
-- the connections between them: the back-off never goes back to a second.
pub listen_waits :
    (decode : String → Option CommandEvent) (ts : List Turn) (i : ℕ) (w : Time)
    → get_elem? (listen decode second ts).waits i ≡ some w
    → w ≡ min (2 ^ i * second) max_backoff
listen_waits decode ts i w h = waits_from decode ts 0 i w h ∙ ap backoff_after (omega arith)
