-- ===== src/Client/Lifecycle/Sequences.antt =====
-- The numbers of the log lines that client/internal/runner/lifecycle.go ships.
use mathlib.Core.List.{append_assoc, append-nil}
use text.Mathlib.TextEquality.{eq_iff}
use text.Mathlib.TextPositions.{eq_refl}
use jackrabbit.Base.{
  ℕ, suc, String, string_eq, ◌==◌, if◌then◌else◌, ◌≡◌, refl, sym, ap, ◌∙◌, false, List, [], ◌∷◌,
  ◌++◌, Bool-cases, inl, inr,
}
use jackrabbit.Dict
use jackrabbit.Dict.{lookup-insert}
use jackrabbit.Client.Lifecycle.{Runner, Shipped, seq_of, stream_log}

-- A line of a command from a source.
pub record Line : Type 0 where
  pub command_id : String
  pub source : String
  pub line : String

unfoldable pub stream_logs : Runner → List Line → Runner
unfolding stream_log
stream_logs r [] = r
stream_logs r (l ∷ ls) = stream_logs (stream_log l.command_id l.source l.line r) ls

unfoldable pub seqs_of : String → List Shipped → List ℕ
seqs_of id [] = []
seqs_of id (s ∷ shipped) =
    let rest = seqs_of id shipped in if s.command_id == id then s.seq ∷ rest else rest

-- The numbers that the lines of one command get, from the next one on.
unfoldable pub numbers : String → ℕ → List Line → List ℕ
numbers id next [] = []
numbers id next (l ∷ ls) =
    if l.command_id == id then next ∷ numbers id (suc next) ls else numbers id next ls

seqs_of-append :
    (id : String) (xs ys : List Shipped) → seqs_of id (xs ++ ys) ≡ seqs_of id xs ++ seqs_of id ys
unfolding seqs_of
seqs_of-append id [] ys = refl
seqs_of-append id (x ∷ xs) ys = elim (Bool-cases (x.command_id == id)) [
  | inl t ↦ rw t (ap (◌∷◌ x.seq) (seqs_of-append id xs ys))
  | inr f ↦ rw f (seqs_of-append id xs ys)
]

seqs_of_other :
    (other : String) (s : Shipped) → (s.command_id == other) ≡ false → seqs_of other (s ∷ []) ≡ []
unfolding seqs_of
seqs_of_other other s f = rw f refl

module _ (id source line : String) (r : Runner) where
  own_seq :
      seqs_of id (stream_log id source line r).shipped
      ≡ seqs_of id r.shipped ++ seq_of (Dict.lookup id r.log_seq) ∷ []
  unfolding stream_log
  own_seq =
      seqs_of-append id r.shipped _
      ∙ ap (λ l. seqs_of id r.shipped ++ l) (unfold seqs_of in rw (eq_refl id) refl)

  pub own_next :
      seq_of (Dict.lookup id (stream_log id source line r).log_seq)
      ≡ suc (seq_of (Dict.lookup id r.log_seq))
  unfolding stream_log
  own_next =
      rw (lookup-insert id id (suc (seq_of (Dict.lookup id r.log_seq))) r.log_seq, eq_refl id) refl

  module _ (other : String) (f : (id == other) ≡ false) where
    other_seq : seqs_of other (stream_log id source line r).shipped ≡ seqs_of other r.shipped
    unfolding stream_log
    other_seq =
        seqs_of-append other r.shipped _
        ∙ ap (λ l. seqs_of other r.shipped ++ l) (seqs_of_other other _ f)
        ∙ append-nil (seqs_of other r.shipped)

    pub other_next :
        seq_of (Dict.lookup other (stream_log id source line r).log_seq)
        ≡ seq_of (Dict.lookup other r.log_seq)
    unfolding stream_log
    other_next =
        rw (lookup-insert id other (suc (seq_of (Dict.lookup id r.log_seq))) r.log_seq, f) refl

-- Lines of several commands, however they alternate: those of each command are numbered in turn,
-- from its next number on.
pub stream_logs_lem :
    (r : Runner) (ls : List Line) (id : String)
    → seqs_of id (stream_logs r ls).shipped
      ≡ seqs_of id r.shipped ++ numbers id (seq_of (Dict.lookup id r.log_seq)) ls
unfolding stream_logs numbers
stream_logs_lem r [] id = sym (append-nil (seqs_of id r.shipped))
stream_logs_lem r (l ∷ ls) id = elim (Bool-cases (l.command_id == id)) [
  | inl t ↦
      let q = (eq_iff l.command_id id).0 t in
      let r' = stream_log id l.source l.line r in
      rw t (
        ap (λ j. seqs_of id (stream_logs (stream_log j l.source l.line r) ls).shipped) q
        ∙ stream_logs_lem r' ls id
        ∙ ap (λ n. seqs_of id r'.shipped ++ numbers id n ls) (own_next id l.source l.line r)
        ∙ ap (λ xs. xs ++ numbers id (suc (seq_of (Dict.lookup id r.log_seq))) ls)
            (own_seq id l.source l.line r)
        ∙ append_assoc (seqs_of id r.shipped) (seq_of (Dict.lookup id r.log_seq) ∷ []) _)
  | inr f ↦
      let r' = stream_log l.command_id l.source l.line r in
      rw f (
        stream_logs_lem r' ls id
        ∙ ap (λ n. seqs_of id r'.shipped ++ numbers id n ls)
            (other_next l.command_id l.source l.line r id f)
        ∙ ap (λ xs. xs ++ numbers id (seq_of (Dict.lookup id r.log_seq)) ls)
            (other_seq l.command_id l.source l.line r id f))
]
