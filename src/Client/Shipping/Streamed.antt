-- ===== src/Client/Shipping/Streamed.antt =====
-- From the lines that client/internal/runner/lifecycle.go streams to the log that the server keeps of
-- a command.
use mathlib.Core.List.{Perm, map-map}
use text.Mathlib.TextEquality.{eq_iff}
use jackrabbit.Base.{
  ℕ, suc, ◌≤◌, String, ℤ, string_eq, ◌==◌, leb, leb_ℤ, ◌≡◌, refl, sym, ap, ap₂, subst, ◌∙◌, Bool,
  true, false, not, Option, none, some, List, [], ◌∷◌, ◌++◌, map, All, Bool-cases, inl, inr, arith,
}
use jackrabbit.Models.{Time, Uuid, Log}
use jackrabbit.Dict
use jackrabbit.Table
use jackrabbit.Table.Ordered.{IsStrict, IsStrict-map, select-map}
use jackrabbit.Db.{Db}
use jackrabbit.Db.State.{runner_exists}
use jackrabbit.Db.Logs.{command_logs, of_command}
use jackrabbit.Db.Notify.{Engine}
use jackrabbit.Server.Http.{respond, empty}
use jackrabbit.Server.Handlers.Runners.Batches.{
  Shown, shown, shown_entry, earlier, accepted, is_about, posts, names,
}
use jackrabbit.Server.Handlers.Runners
use jackrabbit.Server.Handlers.Runners.{parse_optional}
use jackrabbit.Dict.{lookup-insert, lookup-delete}
use jackrabbit.Client.Executor.{Start, active_count}
use jackrabbit.Client.Listener.{CommandEvent}
use jackrabbit.Client.Lifecycle.{
  Runner, Shipped, seq_of, stream_log, handle_command_event, handle_result, exits, accept, cmd_of,
  run_command,
}
use jackrabbit.Client.Lifecycle.Limits
use jackrabbit.Client.Lifecycle.Limits.{streams, handles, ends, has_result, step}
use jackrabbit.Client.Lifecycle.Sequences.{Line, own_next, other_next}
use jackrabbit.Client.Shipping.{LogEntry, log_entry, new_shipper}
use jackrabbit.Client.Shipping.Flushes.{Step, steps, added}
use jackrabbit.Client.Shipping.Stored.{ship_entry, ship, bodies, shipped-command_logs}

-- The line with the next number of its command.
abbrev pub numbered_line : Runner → Line → Shipped
numbered_line r l = record {
  command_id = l.command_id;
  source = l.source;
  line = l.line;
  seq = seq_of (Dict.lookup l.command_id r.log_seq);
}

-- What a step of a runner gives to the shipper.
abbrev pub streamed_by : Runner → Limits.Step → List Shipped
streamed_by r (streams id source line) =
    numbered_line r (record { command_id = id; source = source; line = line }) ∷ []
streamed_by r (handles start now event) = []
streamed_by r (ends id) = []
streamed_by r (has_result id) = []

unfoldable pub streamed : Runner → List Limits.Step → List Shipped
streamed r [] = []
streamed r (s ∷ ss) = streamed_by r s ++ streamed (step r s) ss

-- The lines that are streamed.
abbrev pub line_by : Limits.Step → List Line
line_by (streams id source line) = record { command_id = id; source = source; line = line } ∷ []
line_by (handles start now event) = []
line_by (ends id) = []
line_by (has_result id) = []

unfoldable pub lines_of : List Limits.Step → List Line
lines_of [] = []
lines_of (s ∷ ss) = line_by s ++ lines_of ss

-- A step that does not set the numbers of a command back: no event of it arrives, and no result.
abbrev pub is_quiet : String → Limits.Step → Bool
is_quiet id (handles start now event) = not (event.command_id == id)
is_quiet id (streams other source line) = true
is_quiet id (ends other) = true
is_quiet id (has_result other) = not (other == id)

abbrev pub is_own : String → Shipped → Bool
is_own id s = s.command_id == id

abbrev pub is_line_of : String → Line → Bool
is_line_of id l = l.command_id == id

-- The source and the text of a line, wherever it is.
abbrev pub output_line : Line → String × String
output_line l = (l.source, l.line)

abbrev output_shipped : Shipped → String × String
output_shipped s = (s.source, s.line)

abbrev output_shown : Shown → String × String
output_shown s = (s.source, s.line)

abbrev pub output_log : Log → String × String
output_log l = (l.source, l.line)

abbrev next_of : String → Runner → ℕ
next_of id r = seq_of (Dict.lookup id r.log_seq)

abbrev by_number : Shipped → Shipped → Bool
by_number s t = leb s.seq t.seq

raised :
    (n : ℕ) (xs : List Shipped)
    → All (λ s. suc n ≤ s.seq) xs
    → All (λ s. n ≤ s.seq) xs × All (λ s. leb s.seq n ≡ false) xs
raised n [] a = (tt, tt)
raised n (x ∷ xs) a =
    let (low, high) = raised n xs a.1 in ((omega (arith, a.0), low), (ground (arith, a.0), high))

negated : (b : Bool) → not b ≡ true → b ≡ false
negated false h = refl
negated true h = sym h

module _ (id : String) where
  abbrev own : Runner → List Limits.Step → List Shipped
  own r ss = Table.select (is_own id) (streamed r ss)

  abbrev Climbs : ℕ → List Shipped → Type 0
  Climbs n xs = All (λ s. n ≤ s.seq) xs × IsStrict by_number xs

  handles_next :
      (start : Start) (now : Time) (event : CommandEvent) (r : Runner)
      → (event.command_id == id) ≡ false
      → next_of id (handle_command_event start now event r) ≡ next_of id r
  unfolding handle_command_event accept run_command
  handles_next start now event r f =
      elim (Bool-cases (leb_ℤ r.max_concurrency (ℤ.pos (active_count r.executor)))) [
        | inl t ↦ rw t refl
        | inr g ↦ rw g (taken (cmd_of event.payload))
      ]
    where
      taken : (cmd : Option String) → next_of id (accept start now event r cmd) ≡ next_of id r
      taken none = refl
      taken (some cmd) = rw (lookup-insert event.command_id id 0 r.log_seq, f) refl

  result_next :
      (other : String) (r : Runner)
      → (other == id) ≡ false
      → next_of id (handle_result other r) ≡ next_of id r
  unfolding handle_result
  result_next other r f = rw (lookup-delete other id r.log_seq, f) refl

  module _ (r : Runner) (l : Line) (ss : List Limits.Step) where
    abbrev after : Runner
    after = stream_log l.command_id l.source l.line r

    abbrev streaming : List Limits.Step
    streaming = streams l.command_id l.source l.line ∷ ss

    own_first : (l.command_id == id) ≡ true → own r streaming ≡ numbered_line r l ∷ own after ss
    unfolding streamed step Table.select
    own_first t = rw t refl

    own_rest : (l.command_id == id) ≡ false → own r streaming ≡ own after ss
    unfolding streamed step Table.select
    own_rest f = rw f refl

    first-Climbs :
        (l.command_id == id) ≡ true
        → Climbs (next_of id after) (own after ss)
        → Climbs (next_of id r) (own r streaming)
    first-Climbs t (above, strict) =
        let q = (eq_iff l.command_id id).0 t in
        let here : next_of l.command_id r ≡ next_of id r = ap (λ j. next_of j r) q in
        let next : next_of id after ≡ suc (next_of l.command_id r) =
          ap (λ j. next_of id (stream_log j l.source l.line r)) q
          ∙ own_next id l.source l.line r
          ∙ ap suc (sym here) in
        let (low, high) =
          raised (next_of l.command_id r) (own after ss)
            (subst (λ n. All (λ s. n ≤ s.seq) (own after ss)) next above) in
        subst (Climbs (next_of id r)) (sym (own_first t)) (
          subst (λ n. Climbs n (numbered_line r l ∷ own after ss)) here
            ((omega arith, low), (high, strict)))

    streamed-Climbs :
        Climbs (next_of id after) (own after ss) → Climbs (next_of id r) (own r streaming)
    streamed-Climbs climbs = elim (Bool-cases (l.command_id == id)) [
      | inl t ↦ first-Climbs t climbs
      | inr f ↦ subst (Climbs (next_of id r)) (sym (own_rest f)) (
          subst (λ n. Climbs n (own after ss)) (other_next l.command_id l.source l.line r id f)
            climbs)
    ]

    lines_next :
        map output_shipped (own after ss)
          ≡ map output_line (Table.select (is_line_of id) (lines_of ss))
        → map output_shipped (own r streaming)
          ≡ map output_line (Table.select (is_line_of id) (lines_of streaming))
    unfolding streamed step lines_of Table.select
    lines_next same = elim (Bool-cases (l.command_id == id)) [
      | inl t ↦ rw t (ap (◌∷◌ (output_line l)) same)
      | inr f ↦ rw f same
    ]

  -- The lines of a command are numbered from its next number on, strictly upwards.
  own-Climbs :
      (ss : List Limits.Step) (r : Runner)
      → All (λ s. is_quiet id s ≡ true) ss
      → Climbs (next_of id r) (own r ss)
  unfolding step streamed exits Table.select
  own-Climbs [] r a = (tt, tt)
  own-Climbs (streams other source line ∷ ss) r a =
      streamed-Climbs r (record { command_id = other; source = source; line = line }) ss
        (own-Climbs ss (stream_log other source line r) a.1)
  own-Climbs (handles start now event ∷ ss) r a =
      let r' = handle_command_event start now event r in
      subst (λ n. Climbs n (own r' ss)) (handles_next start now event r (negated _ a.0))
        (own-Climbs ss r' a.1)
  own-Climbs (ends other ∷ ss) r a = own-Climbs ss (exits other r) a.1
  own-Climbs (has_result other ∷ ss) r a =
      let r' = handle_result other r in
      subst (λ n. Climbs n (own r' ss)) (result_next other r (negated _ a.0)) (own-Climbs ss r' a.1)

  own_lines :
      (ss : List Limits.Step) (r : Runner)
      → map output_shipped (own r ss) ≡ map output_line (Table.select (is_line_of id) (lines_of ss))
  unfolding step streamed lines_of Table.select
  own_lines [] r = refl
  own_lines (streams other source line ∷ ss) r =
      lines_next r (record { command_id = other; source = source; line = line }) ss
        (own_lines ss (stream_log other source line r))
  own_lines (handles start now event ∷ ss) r = own_lines ss (handle_command_event start now event r)
  own_lines (ends other ∷ ss) r = own_lines ss (exits other r)
  own_lines (has_result other ∷ ss) r = own_lines ss (handle_result other r)

-- Add's entry of a line that was given to the shipper, at its time.
abbrev pub entry_of : (Shipped → Time) → Shipped → LogEntry
entry_of time s = log_entry s.command_id s.source s.line (ℤ.pos s.seq) (time s)

abbrev pub spells : (String → Option Uuid) → Uuid → String → Bool
spells parse_uuid id text = names id (parse_optional parse_uuid (some text))

spelled_alike :
    (parse_uuid : String → Option Uuid) (id : Uuid) (text : String) (ss : List Limits.Step)
    (r : Runner)
    → All (λ (l : Line). spells parse_uuid id l.command_id ≡ (l.command_id == text)) (lines_of ss)
    → All (λ (s : Shipped). spells parse_uuid id s.command_id ≡ is_own text s) (streamed r ss)
unfolding streamed lines_of step
spelled_alike parse_uuid id text [] r a = tt
spelled_alike parse_uuid id text (streams other source line ∷ ss) r a =
    (a.0, spelled_alike parse_uuid id text ss (stream_log other source line r) a.1)
spelled_alike parse_uuid id text (handles start now event ∷ ss) r a =
    spelled_alike parse_uuid id text ss (handle_command_event start now event r) a
spelled_alike parse_uuid id text (ends other ∷ ss) r a =
    spelled_alike parse_uuid id text ss (exits other r) a
spelled_alike parse_uuid id text (has_result other ∷ ss) r a =
    spelled_alike parse_uuid id text ss (handle_result other r) a

-- What the entries of a batch tell of a command.
abbrev told : Engine → Uuid → List LogEntry → List Shown
told e id entries = map shown_entry (Table.select (is_about e.parse_uuid id) (ship entries))

leb-pos : (m n : ℕ) → leb m n ≡ leb_ℤ (ℤ.pos m) (ℤ.pos n)
leb-pos m n = ap₂ leb (omega arith) (omega arith)

module _ (e : Engine) (id : Uuid) (text : String) (r : Runner) (ss : List Limits.Step)
    (time : Shipped → Time)
    (alike : All
      (λ (l : Line). spells e.parse_uuid id l.command_id ≡ (l.command_id == text))
      (lines_of ss))
    (quiet : All (λ s. is_quiet text s ≡ true) ss) where
  abbrev sent : List Runners.LogEntry
  sent = Table.select (is_about e.parse_uuid id) (ship (map (entry_of time) (streamed r ss)))

  sent-own : sent ≡ map (λ s. ship_entry (entry_of time s)) (own text r ss)
  unfolding ship
  sent-own =
      ap (Table.select (is_about e.parse_uuid id))
        (map-map ship_entry (entry_of time) (streamed r ss))
      ∙ select-map (is_about e.parse_uuid id) (is_own text) (λ s. ship_entry (entry_of time s))
          (streamed r ss) (spelled_alike e.parse_uuid id text ss r alike)

  shown-own :
      map shown_entry sent ≡ map (λ s. shown_entry (ship_entry (entry_of time s))) (own text r ss)
  shown-own = ap (map shown_entry) sent-own ∙ map-map shown_entry _ (own text r ss)

  sent-IsStrict : IsStrict earlier (map shown_entry sent)
  sent-IsStrict = subst (IsStrict earlier) (sym shown-own) (
      IsStrict-map by_number earlier _ (λ s t. leb-pos s.seq t.seq) _
        (own-Climbs text ss r quiet).1)

  output-sent :
      map output_shown (map shown_entry sent)
      ≡ map output_line (Table.select (is_line_of text) (lines_of ss))
  output-sent =
      ap (map output_shown) shown-own ∙ map-map output_shown _ (own text r ss) ∙ own_lines text ss r

-- A runner takes events and results and streams lines, which are texts in UTF-8, of several
-- commands, in any order; but of one command, no event and no result arrives meanwhile. The lines
-- are added to a shipper of logs and flushed, in any order and until the buffer is empty, and the
-- batches arrive at the server in any order, from a runner that exists, about commands that exist,
-- and without NUL characters. Then every batch is answered with 204; and the log of that command, if
-- it had no lines before, has the sources and the texts of the lines that the runner streamed for
-- it, in the order in which it streamed them, however a query scans the table, provided that among
-- the lines the command's text, and no other, spells its identifier.
pub streamed-command_logs :
    (e : Engine) (slug : String) (db : Db) (id : Uuid) (text : String) (r : Runner)
    (ss : List Limits.Step) (time : Shipped → Time) (es : List (Step LogEntry))
    (arrived : List (List LogEntry)) (scan : List Log → List Log)
    → ((ls : List Log) → Perm (scan ls) ls)
    → runner_exists db (some slug) ≡ true
    → All (λ (l : Line). spells e.parse_uuid id l.command_id ≡ (l.command_id == text)) (lines_of ss)
    → All (λ s. is_quiet text s ≡ true) ss
    → added es ≡ map (entry_of time) (streamed r ss)
    → (steps new_shipper es).buffer ≡ []
    → Perm arrived (bodies (steps new_shipper es))
    → All (All (λ l. accepted e.parse_uuid db l ≡ true)) (map ship arrived)
    → Table.select (of_command id) db.logs ≡ []
    → let (answers, db') = posts e slug db (map ship arrived) in
      All (λ r. r ≡ respond 204 empty) answers
      × (map output_log (command_logs scan db' id)
          ≡ map output_line (Table.select (is_line_of text) (lines_of ss)))
streamed-command_logs e slug db id text r ss time es arrived scan law exists alike quiet adds
      flushed p a fresh =
    let strict : IsStrict earlier (told e id (added es)) =
      subst (λ entries. IsStrict earlier (told e id entries)) (sym adds)
        (sent-IsStrict e id text r ss time alike quiet) in
    let (good, kept) =
      shipped-command_logs e slug db id es arrived scan law exists flushed p a fresh strict in
    (
      good,
      sym (map-map output_shown shown _)
          ∙ ap (map output_shown) kept
          ∙ ap (λ entries. map output_shown (told e id entries)) adds
          ∙ output-sent e id text r ss time alike quiet,
    )
