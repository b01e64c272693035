-- ===== src/Db/Logs/Pages.antt =====
-- GetLogs of server/internal/store/postgres/store.go: the pages of a command's log.
use mathlib.Core.List.{Perm}
use mathlib.Core.List.Perm
use text.Mathlib.TextEquality.{IsScalar-prop}
use jackrabbit.Table.Ordered.{IsStrict, sorted_unique}
use jackrabbit.Base.{
  ℕ, zero, suc, ◌+◌, ◌*◌, ◌-◌, ◌%◌, ◌^◌, ◌≤◌, ◌<◌, ltb, ℤ, ◌≡◌, sym, ap, ◌∙◌, ◌↔◌, true, false,
  Option, none, nat_eq, nat_beq_iff, some, List, [], ◌++◌, Memᴰ, length, take, drop, take_add,
  take_all, arith,
}
use jackrabbit.Models.{Uuid, Log}
use jackrabbit.Results.{Result, ok, err}
use jackrabbit.Table
use jackrabbit.Table.Keys.{mem-select, select-mem}
use jackrabbit.Table.Sorting.{sort_by-perm, mem-sort_by, sort_by-mem, sort_by-IsSorted}
use jackrabbit.Db.State.{Db, equals}
use jackrabbit.Db.Logs.{get_logs, command_logs, of_command, by_seq, page_offset}

abbrev pub joined : Result (List Log) → Result (List Log) → Result (List Log)
joined (ok ls) (ok ms) = ok (ls ++ ms)
joined (ok ls) (err e) = err e
joined (err e) _ = err e

-- The orders in which the queries come upon the rows, by LIMIT and OFFSET.
abbrev pub Scan : Type 0
Scan = ℕ → ℕ → List Log → List Log

-- A scan gives the rows that there are.
abbrev pub IsScan : Scan → Type 0
IsScan scan = (limit offset : ℕ) (ls : List Log) → Perm (scan limit offset ls) ls

-- A client that reads the pages 1 to k of a size, and puts them together.
unfoldable pub read_pages : Scan → Db → Uuid → ℕ → ℕ → Result (List Log)
read_pages scan db id size zero = ok []
read_pages scan db id size (suc k) =
    joined (read_pages scan db id size k) (get_logs scan db id (ℤ.pos (suc k)) (ℤ.pos size))

Log-IsSet : IsSet Log
Log-IsSet = hlevel IsScalar-prop

pub by_seq-total : (l m : Log) → by_seq l m ≡ false → by_seq m l ≡ true
by_seq-total l m h = ground arith

pub by_seq_trans : (l m n : Log) → by_seq l m ≡ true → by_seq m n ≡ true → by_seq l n ≡ true
by_seq_trans l m n p q = ground arith

-- The log in the order of the table.
abbrev pub in_order : Db → Uuid → List Log
in_order db id = command_logs (λ ls. ls) db id

-- Where all numbers differ, the scan does not matter.
scanned :
    (scan : List Log → List Log) (db : Db) (id : Uuid)
    → ((ls : List Log) → Perm (scan ls) ls)
    → IsStrict by_seq (in_order db id)
    → command_logs scan db id ≡ in_order db id
unfolding command_logs
scanned scan db id law strict =
    sorted_unique Log-IsSet by_seq _ _ (sort_by-IsSorted by_seq by_seq-total by_seq_trans _) strict
      (Perm.trans (sort_by-perm by_seq _) (Perm.trans (law _) (Perm.symm (sort_by-perm by_seq _))))

one_page :
    (scan : Scan) (db : Db) (id : Uuid) (k size : ℕ)
    → IsScan scan
    → IsStrict by_seq (in_order db id)
    → 1 ≤ size
    → size ≤ 1000
    → k * size < 2 ^ 63
    → get_logs scan db id (ℤ.pos (suc k)) (ℤ.pos size)
      ≡ ok (take size (drop (k * size) (in_order db id)))
unfolding get_logs
one_page scan db id k size law strict low high fits =
    rw (at_least, at_most, offset, small)
      (ap (λ ls. ok (take size (drop (k * size) ls)))
        (scanned (scan size (k * size)) db id (law size (k * size)) strict))
  where
    at_least : ltb size 1 ≡ false
    at_least = ground arith

    at_most : ltb 1000 size ≡ false
    at_most = ground arith

    offset : page_offset (suc k) size ≡ k * size
    offset =
        let same : suc k - 1 ≡ k = omega arith in
        let within : (k * size) % 2 ^ 64 ≡ k * size = omega (arith, fits) in
        ap (λ j. (j * size) % 2 ^ 64) same ∙ within

    small : ltb (k * size) (2 ^ 63) ≡ true
    small = ground arith

first_pages :
    (scan : Scan) (db : Db) (id : Uuid) (size k : ℕ)
    → IsScan scan
    → IsStrict by_seq (in_order db id)
    → 1 ≤ size
    → size ≤ 1000
    → k * size ≤ 2 ^ 63
    → read_pages scan db id size k ≡ ok (take (k * size) (in_order db id))
unfolding read_pages
first_pages scan db id size zero law strict low high fits =
    let none_read : 0 ≡ 0 * size = omega arith in ap (λ n. ok (take n (in_order db id))) none_read
first_pages scan db id size (suc k) law strict low high fits =
    let more : suc k * size ≡ k * size + size = omega arith in
    let rows = in_order db id in
    let both : take (suc k * size) rows ≡ take (k * size) rows ++ take size (drop (k * size) rows) =
      ap (λ n. take n rows) more ∙ take_add (k * size) size rows in
    rw
      (
        first_pages scan db id size k law strict low high (omega (arith, fits, more)),
        one_page scan db id k size law strict low high (omega (arith, fits, more, low)),
      )
      (ap ok (sym both))

of_command-id : (id : Uuid) (l : Log) → (of_command id l ≡ true) ↔ (l.command_id ≡ some id)
of_command-id id l = compare l.command_id
  where
    compare : (o : Option Uuid) → (equals o id ≡ true) ↔ (o ≡ some id)
    compare none = ((λ h. absurd (ground arith)), (λ h. absurd (ground arith)))
    compare (some a) =
        ((λ h. ap some ((nat_beq_iff a id).0 h)), (λ h. (nat_beq_iff a id).1 (ground arith)))

in_order-mem :
    (db : Db) (id : Uuid) (l : Log)
    → Memᴰ l (in_order db id) ↔ (Memᴰ l db.logs × (l.command_id ≡ some id))
unfolding command_logs
in_order-mem db id l = (
  (λ m.
      let (kept, t) = mem-select l (of_command id) db.logs (mem-sort_by by_seq l _ m) in
      (kept, (of_command-id id l).0 t)),
  (λ (m, q).
      sort_by-mem by_seq l _ (select-mem l (of_command id) db.logs m ((of_command-id id l).1 q))),
)

-- A client that reads enough pages of a size, one after another, gets every line of the command's
-- log, once each, in the order of the sequence numbers, if no two lines have the same number, however
-- each query scans the table.
pub read_pages_lem :
    (scan : Scan) (db : Db) (id : Uuid) (size k : ℕ)
    → IsScan scan
    → IsStrict by_seq (in_order db id)
    → 1 ≤ size
    → size ≤ 1000
    → length (in_order db id) ≤ k * size
    → k * size ≤ 2 ^ 63
    → (ls : List Log) × (read_pages scan db id size k ≡ ok ls)
      × IsStrict by_seq ls
      × Perm ls (Table.select (of_command id) db.logs)
      × ((l : Log) → Memᴰ l ls ↔ (Memᴰ l db.logs × (l.command_id ≡ some id)))
unfolding command_logs
read_pages_lem scan db id size k law strict low high enough fits = (
  in_order db id,
  first_pages scan db id size k law strict low high fits
      ∙ ap ok (take_all (k * size) (in_order db id) enough),
  strict,
  sort_by-perm by_seq _,
  in_order-mem db id,
)
