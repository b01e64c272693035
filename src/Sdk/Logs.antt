-- ===== src/Sdk/Logs.antt =====
-- WatchLogs of sdk/go/client.go.
pub mod Order
use jackrabbit.Base.{
  ℕ, zero, suc, ℤ, String, ltb_ℤ, if◌then◌else◌, Bool, true, false, Option, none, some, List, [],
  ◌∷◌, ◌++◌,
}
use jackrabbit.Models.{Payload, PayloadValue, text, other}
use jackrabbit.Dict
use jackrabbit.Sdk.{Client, Network, Outcome, done, failed}
use jackrabbit.Sdk.Requests.{get_logs}

-- `log["seq"].(float64)`, and int64 of it. A value that is no string is kept as its text: `as_int`
-- gives the whole part of a number.
abbrev pub number_of : (String → Option ℤ) → Option PayloadValue → Option ℤ
number_of as_int (some (other s)) = as_int s
number_of as_int _ = none

abbrev pub seq_of : (String → Option ℤ) → Payload → Option ℤ
seq_of as_int log = number_of as_int (Dict.lookup "seq" log)

-- What the caller has been sent, the last sequence number, and whether the channel is closed.
pub record Watch : Type 0 where
  pub sent : List Payload
  pub last_seq : ℤ
  pub closed : Bool

-- How many more sends the caller takes before the context is done; none where it takes all.
abbrev pub Patience : Type 0
Patience = Option ℕ

-- The select that sends a log, or finds the context done.
abbrev pub spend : Patience → Payload → ℤ → Watch → Patience × Watch
spend none log seq w = (none, record w { sent = w.sent ++ log ∷ []; last_seq = seq })
spend (some zero) log seq w = (some zero, record w { closed = true })
spend (some (suc n)) log seq w = (some n, record w { sent = w.sent ++ log ∷ []; last_seq = seq })

-- A log with a later sequence number is sent.
unfoldable pub send_log : Patience → Payload → Option ℤ → Watch → Patience × Watch
send_log p log none w = (p, w)
send_log p log (some seq) w = if ltb_ℤ w.last_seq seq then spend p log seq w else (p, w)

-- The inner loop.
unfoldable pub send_logs : (String → Option ℤ) → Patience → List Payload → Watch → Watch
unfolding send_log Dict.lookup
send_logs as_int p [] w = w
send_logs as_int p (log ∷ logs) w =
    if w.closed
    then w
    else let (p', w') = send_log p log (seq_of as_int log) w in send_logs as_int p' logs w'

-- A turn of the loop: the context is done, or the ticker ticks and the server is asked.
pub data Tick : Type 0 where
  context_done : Tick
  ticks : Network → Patience → Tick

abbrev pub take_page : (String → Option ℤ) → Patience → Outcome (List Payload) → Watch → Watch
take_page as_int p (failed e) w = w
take_page as_int p (done none) w = w
take_page as_int p (done (some logs)) w = send_logs as_int p logs w

-- `page` is 1 at every tick.
unfoldable pub tick : (String → Option ℤ) → Client → String → Tick → Watch → Watch
unfolding send_logs get_logs
tick as_int c command_id context_done w = record w { closed = true }
tick as_int c command_id (ticks net p) w =
    take_page as_int p (get_logs net c command_id (ℤ.pos 1) (ℤ.pos 100)) w

unfoldable pub watch_from : (String → Option ℤ) → Client → String → List Tick → Watch → Watch
unfolding tick
watch_from as_int c command_id [] w = w
watch_from as_int c command_id (t ∷ ts) w =
    if w.closed then w else watch_from as_int c command_id ts (tick as_int c command_id t w)

unfoldable pub watch_logs : (String → Option ℤ) → Client → String → List Tick → Watch
unfolding watch_from
watch_logs as_int c command_id ts =
    watch_from as_int c command_id ts (record { sent = []; last_seq = ℤ.pos 0; closed = false })
