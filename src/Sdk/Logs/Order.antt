-- ===== src/Sdk/Logs/Order.antt =====
-- The order of the logs that WatchLogs of sdk/go/client.go sends.
use jackrabbit.Base.{
  zero, suc, ℤ, String, ◌≡◌, refl, ltb_ℤ, if◌then◌else◌, Bool, true, false, Option, none, some,
  List, [], ◌∷◌, ◌++◌, Bool-cases, inl, inr,
}
use jackrabbit.Models.{Payload}
use jackrabbit.Sdk.{Client, Outcome, done, failed}
use jackrabbit.Sdk.Requests.{get_logs}
use jackrabbit.Sdk.Logs.{
  seq_of, Watch, Patience, spend, send_log, send_logs, Tick, context_done, ticks, take_page, tick,
  watch_from, watch_logs,
}

if_holds {ℓ κ} :
    {A : Type ℓ} (P : A → Type κ) (b : Bool) (x y : A) → P x → P y → P (if b then x else y)
if_holds P true x y p q = p
if_holds P false x y p q = q

module _ (as_int : String → Option ℤ) where
  -- The sequence numbers climb from one, exclusive, to another, inclusive.
  abbrev pub Climbs : ℤ → List Payload → ℤ → Type 0
  Climbs from [] to = from ≡ to
  Climbs from (log ∷ logs) to =
      (seq : ℤ) × (seq_of as_int log ≡ some seq) × (ltb_ℤ from seq ≡ true) × Climbs seq logs to

  Climbs-snoc :
      (from mid : ℤ) (logs : List Payload) (log : Payload) (seq : ℤ)
      → Climbs from logs mid
      → seq_of as_int log ≡ some seq
      → ltb_ℤ mid seq ≡ true
      → Climbs from (logs ++ log ∷ []) seq
  Climbs-snoc from mid [] log seq c read later = rw c (seq, read, later, refl)
  Climbs-snoc from mid (l ∷ logs) log seq (first, one, above, rest) read later =
      (first, one, above, Climbs-snoc first mid logs log seq rest read later)

  abbrev HasClimbed : Watch → Type 0
  HasClimbed w = Climbs (ℤ.pos 0) w.sent w.last_seq

  spend-HasClimbed :
      (p : Patience) (log : Payload) (seq : ℤ) (w : Watch)
      → seq_of as_int log ≡ some seq
      → ltb_ℤ w.last_seq seq ≡ true
      → HasClimbed w
      → HasClimbed (spend p log seq w).1
  spend-HasClimbed none log seq w read later c =
      Climbs-snoc (ℤ.pos 0) w.last_seq w.sent log seq c read later
  spend-HasClimbed (some zero) log seq w read later c = c
  spend-HasClimbed (some (suc n)) log seq w read later c =
      Climbs-snoc (ℤ.pos 0) w.last_seq w.sent log seq c read later

  send_log-HasClimbed :
      (p : Patience) (log : Payload) (o : Option ℤ) (w : Watch)
      → seq_of as_int log ≡ o
      → HasClimbed w
      → HasClimbed (send_log p log o w).1
  unfolding send_log
  send_log-HasClimbed p log none w read c = c
  send_log-HasClimbed p log (some seq) w read c = elim (Bool-cases (ltb_ℤ w.last_seq seq)) [
    | inl t ↦ rw t (spend-HasClimbed p log seq w read t c)
    | inr f ↦ rw f c
  ]

  send_logs-HasClimbed :
      (p : Patience) (logs : List Payload) (w : Watch)
      → HasClimbed w
      → HasClimbed (send_logs as_int p logs w)
  unfolding send_logs
  send_logs-HasClimbed p [] w c = c
  send_logs-HasClimbed p (log ∷ logs) w c = if_holds HasClimbed w.closed w _ c (
      send_logs-HasClimbed (send_log p log (seq_of as_int log) w).0 logs
        (send_log p log (seq_of as_int log) w).1
        (send_log-HasClimbed p log (seq_of as_int log) w refl c))

  take_page-HasClimbed :
      (p : Patience) (o : Outcome (List Payload)) (w : Watch)
      → HasClimbed w
      → HasClimbed (take_page as_int p o w)
  take_page-HasClimbed p (failed e) w c = c
  take_page-HasClimbed p (done none) w c = c
  take_page-HasClimbed p (done (some logs)) w c = send_logs-HasClimbed p logs w c

  module _ (client : Client) (id : String) where
    tick-HasClimbed : (t : Tick) (w : Watch) → HasClimbed w → HasClimbed (tick as_int client id t w)
    unfolding tick
    tick-HasClimbed context_done w c = c
    tick-HasClimbed (ticks net p) w c =
        take_page-HasClimbed p (get_logs net client id (ℤ.pos 1) (ℤ.pos 100)) w c

    watch_from-HasClimbed :
        (ts : List Tick) (w : Watch) → HasClimbed w → HasClimbed (watch_from as_int client id ts w)
    unfolding watch_from
    watch_from-HasClimbed [] w c = c
    watch_from-HasClimbed (t ∷ ts) w c =
        if_holds HasClimbed w.closed w _ c
          (watch_from-HasClimbed ts (tick as_int client id t w) (tick-HasClimbed t w c))

-- Whatever the server answers at each tick, the logs that WatchLogs sends have sequence numbers that
-- climb strictly, from one above 0 to the last that is remembered: no log is sent twice, none out of
-- order, and a log numbered 0 never.
pub watch_logs-Climbs :
    (as_int : String → Option ℤ) (c : Client) (id : String) (ts : List Tick)
    → let w = watch_logs as_int c id ts in Climbs as_int (ℤ.pos 0) w.sent w.last_seq
unfolding watch_logs
watch_logs-Climbs as_int c id ts =
    watch_from-HasClimbed as_int c id ts (record { sent = []; last_seq = ℤ.pos 0; closed = false })
      refl
