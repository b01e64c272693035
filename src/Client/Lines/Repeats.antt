-- ===== src/Client/Lines/Repeats.antt =====
-- streamOutput of client/internal/runner/executor.go: a line that comes in two reads.
use mathlib.Core.List.{append_assoc}
use jackrabbit.Base.{
  length, length-append, arith, ℕ, ◌≡◌, refl, sym, ap, ◌∙◌, Bool, true, [], ◌∷◌, ◌++◌,
}
use jackrabbit.Client.Lines.{
  Bytes, Output, split_lines, ends_with_newline, send_line, send_lines, read_chunk, read_chunks,
  send_rest, stream_output,
}
use jackrabbit.Client.Lines.Splitting.{
  IsOneLine, one_line_ends, split_one_line, split_ended, newline_ends, append-IsOneLine,
}

module _ (has_room : ℕ → Bool) (roomy : (n : ℕ) → has_room n ≡ true) (c : ℕ) (first rest : Bytes)
    (one : IsOneLine (c ∷ first)) (other : IsOneLine rest) where
  abbrev fresh : Output
  fresh = record { incomplete = []; taken = []; sends = 0 }

  -- The first read only leaves what it gave.
  abbrev waiting : Output
  waiting = record { incomplete = c ∷ first; taken = []; sends = 0 }

  first_read : read_chunk has_room fresh (c ∷ first) ≡ waiting
  unfolding read_chunk send_lines
  first_read = rw (read_chunk, one_line_ends c first one, split_one_line c first one) refl

  abbrev repeated : Output
  repeated = record { incomplete = c ∷ first; taken = (c ∷ first ++ rest) ∷ []; sends = 1 }

  same : (c ∷ first) ++ (rest ++ b'\n' ∷ []) ≡ (c ∷ first ++ rest) ++ b'\n' ∷ []
  same = sym (append_assoc (c ∷ first) rest (b'\n' ∷ []))

  sent : send_lines has_room true ((c ∷ first ++ rest) ∷ []) waiting ≡ repeated
  unfolding send_lines send_line
  sent = rw (roomy 0) refl

  read_whole :
      (bytes : Bytes)
      → bytes ≡ (c ∷ first ++ rest) ++ b'\n' ∷ []
      → send_lines has_room (ends_with_newline bytes) (split_lines bytes) waiting ≡ repeated
  read_whole bytes q =
      ap (λ l. send_lines has_room (ends_with_newline l) (split_lines l) waiting) q
      ∙ rw
          (
            newline_ends (c ∷ first ++ rest),
            split_ended (c ∷ first ++ rest) (append-IsOneLine (c ∷ first) rest one other),
          )
          sent

  second_read :
      (chunk : Bytes) → rest ++ b'\n' ∷ [] ≡ chunk → read_chunk has_room waiting chunk ≡ repeated
  unfolding read_chunk
  second_read [] q = absurd (omega (arith, ap length q, length-append rest (b'\n' ∷ [])))
  second_read (x ∷ chunk) q =
      read_whole (c ∷ first ++ x ∷ chunk) (ap (λ l. c ∷ first ++ l) (sym q) ∙ same)

  both_read : read_chunks has_room fresh ((c ∷ first) ∷ (rest ++ b'\n' ∷ []) ∷ []) ≡ repeated
  unfolding read_chunks
  both_read = ap (λ o. read_chunk has_room o (rest ++ b'\n' ∷ [])) first_read ∙ second_read _ refl

-- Where the log channel always has room, an output of one line that comes in two reads, the first not
-- empty and without the end of the line, the second with it: the line is sent when the second read
-- completes it, and at the end of the output what the first read gave is sent once more.
pub stream_output_repeats :
    (has_room : ℕ → Bool) (c : ℕ) (first rest : Bytes)
    → ((n : ℕ) → has_room n ≡ true)
    → IsOneLine (c ∷ first)
    → IsOneLine rest
    → stream_output has_room ((c ∷ first) ∷ (rest ++ b'\n' ∷ []) ∷ [])
      ≡ (c ∷ first ++ rest) ∷ (c ∷ first) ∷ []
unfolding stream_output send_rest
stream_output_repeats has_room c first rest roomy one other =
    ap send_rest (both_read has_room roomy c first rest one other)
