-- ===== src/Client/Lines/Streaming.antt =====
-- streamOutput of client/internal/runner/executor.go: which lines a process's output becomes.
use mathlib.Core.List.{append_assoc, append-nil}
use jackrabbit.Base.{
  ℕ, nat_eq, ◌≡◌, refl, sym, ap, ◌∙◌, Bool, true, false, List, [], ◌∷◌, ◌++◌, All, arith,
}
use jackrabbit.Client.Lines.{
  Bytes, Output, split_lines, ends_with_newline, send_line, send_lines, read_chunk, read_chunks,
  send_rest, stream_output,
}
use jackrabbit.Client.Lines.Splitting.{
  split_lines-append, split_lines_lem, IsOneLine, unlines, terminated,
}

-- The lines that are not empty.
unfoldable pub shown : List Bytes → List Bytes
shown [] = []
shown ([] ∷ lines) = shown lines
shown ((c ∷ line) ∷ lines) = (c ∷ line) ∷ shown lines

unfoldable pub flatten : List Bytes → Bytes
flatten [] = []
flatten (chunk ∷ chunks) = chunk ++ flatten chunks

shown-append : (xs ys : List Bytes) → shown (xs ++ ys) ≡ shown xs ++ shown ys
unfolding shown
shown-append [] ys = refl
shown-append ([] ∷ xs) ys = shown-append xs ys
shown-append ((c ∷ x) ∷ xs) ys = ap (◌∷◌ (c ∷ x)) (shown-append xs ys)

module _ (has_room : ℕ → Bool) where
  send_line_incomplete :
      (line : Bytes) (o : Output) → (send_line has_room line o).incomplete ≡ o.incomplete
  unfolding send_line
  send_line_incomplete [] o = refl
  send_line_incomplete (c ∷ line) o = refl

  -- What ends with a newline leaves `incomplete` alone, whatever is in it.
  send_lines_incomplete :
      (lines : List Bytes) (o : Output)
      → (send_lines has_room true lines o).incomplete ≡ o.incomplete
  unfolding send_lines
  send_lines_incomplete [] o = refl
  send_lines_incomplete (line ∷ []) o = send_line_incomplete line o
  send_lines_incomplete (line ∷ next ∷ lines) o =
      send_lines_incomplete (next ∷ lines) (send_line has_room line o) ∙ send_line_incomplete line o

  module _ (roomy : (n : ℕ) → has_room n ≡ true) where
    send_line_taken :
        (line : Bytes) (lines : List Bytes) (o : Output)
        → (send_line has_room line o).taken ++ shown lines ≡ o.taken ++ shown (line ∷ lines)
    unfolding send_line shown
    send_line_taken [] lines o = refl
    send_line_taken (c ∷ line) lines o =
        rw (roomy o.sends) (append_assoc o.taken ((c ∷ line) ∷ []) (shown lines))

    send_lines_taken :
        (lines : List Bytes) (o : Output)
        → (send_lines has_room true lines o).taken ≡ o.taken ++ shown lines
    unfolding send_lines shown
    send_lines_taken [] o = sym (append-nil o.taken)
    send_lines_taken (line ∷ []) o =
        sym (append-nil (send_line has_room line o).taken) ∙ send_line_taken line [] o
    send_lines_taken (line ∷ next ∷ lines) o =
        send_lines_taken (next ∷ lines) (send_line has_room line o)
        ∙ send_line_taken line (next ∷ lines) o

    send_rest_empty : (o : Output) → o.incomplete ≡ [] → send_rest o ≡ o.taken
    unfolding send_rest
    send_rest_empty o q = rw q refl

    send_rest_taken :
        (complete : Bool) (lines : List Bytes) (o : Output)
        → o.incomplete ≡ []
        → send_rest (send_lines has_room complete lines o) ≡ o.taken ++ shown lines
    unfolding send_lines shown
    send_rest_taken complete [] o q = send_rest_empty o q ∙ sym (append-nil o.taken)
    send_rest_taken true (line ∷ []) o q =
        send_rest_empty (send_line has_room line o) (send_line_incomplete line o ∙ q)
        ∙ send_lines_taken (line ∷ []) o
    send_rest_taken false ([] ∷ []) o q =
        send_rest_empty (record o { incomplete = [] }) refl ∙ sym (append-nil o.taken)
    send_rest_taken false ((c ∷ line) ∷ []) o q = unfold send_rest in refl
    send_rest_taken complete (line ∷ next ∷ lines) o q =
        send_rest_taken complete (next ∷ lines) (send_line has_room line o)
          (send_line_incomplete line o ∙ q)
        ∙ send_line_taken line (next ∷ lines) o

    fresh_chunk :
        (o : Output) (b : ℕ) (chunk : Bytes)
        → o.incomplete ≡ []
        → read_chunk has_room o (b ∷ chunk)
          ≡ send_lines has_room (ends_with_newline (b ∷ chunk)) (split_lines (b ∷ chunk)) o
    unfolding read_chunk
    fresh_chunk o b chunk q =
        ap
          (λ rest.
            send_lines has_room (ends_with_newline (rest ++ b ∷ chunk))
              (split_lines (rest ++ b ∷ chunk)) o)
          q

    last_chunk :
        (o : Output) (last : Bytes)
        → o.incomplete ≡ []
        → send_rest (read_chunk has_room o last) ≡ o.taken ++ shown (split_lines last)
    unfolding read_chunk
    last_chunk o [] q = send_rest_empty o q ∙ unfold shown split_lines in sym (append-nil o.taken)
    last_chunk o (b ∷ last) q =
        ap send_rest (fresh_chunk o b last q)
        ∙ send_rest_taken (ends_with_newline (b ∷ last)) (split_lines (b ∷ last)) o q

    whole_chunk :
        (o : Output) (chunk : Bytes)
        → o.incomplete ≡ []
        → ends_with_newline chunk ≡ true
        → ((read_chunk has_room o chunk).incomplete ≡ [])
          × ((read_chunk has_room o chunk).taken ≡ o.taken ++ shown (split_lines chunk))
    unfolding ends_with_newline
    whole_chunk o [] q h = absurd (ground arith)
    whole_chunk o (b ∷ chunk) q h =
        let lines = split_lines (b ∷ chunk) in
        let read = fresh_chunk o b chunk q ∙ ap (λ c. send_lines has_room c lines o) h in
        (
          ap (λ p. p.incomplete) read ∙ send_lines_incomplete lines o ∙ q,
          ap (λ p. p.taken) read ∙ send_lines_taken lines o,
        )

    stream_from :
        (o : Output) (chunks : List Bytes) (last : Bytes)
        → o.incomplete ≡ []
        → All (λ chunk. ends_with_newline chunk ≡ true) chunks
        → send_rest (read_chunks has_room o (chunks ++ last ∷ []))
          ≡ o.taken ++ shown (split_lines (flatten chunks ++ last))
    unfolding read_chunks flatten
    stream_from o [] last q a = last_chunk o last q
    stream_from o (chunk ∷ chunks) last q a =
        let (empty, taken) = whole_chunk o chunk q a.0 in
        stream_from (read_chunk has_room o chunk) chunks last empty a.1
        ∙ ap (λ t. t ++ shown (split_lines (flatten chunks ++ last))) taken
        ∙ append_assoc o.taken (shown (split_lines chunk))
            (shown (split_lines (flatten chunks ++ last)))
        ∙ ap (λ t. o.taken ++ t)
            (sym (shown-append (split_lines chunk) (split_lines (flatten chunks ++ last)))
              ∙ ap shown (
                  sym (split_lines-append chunk (flatten chunks ++ last) a.0)
                  ∙ ap split_lines (sym (append_assoc chunk (flatten chunks) last))))

-- When every read but the last gives whole lines, and the log channel always has room, the lines
-- that are sent, in order, are those of some lines that are not empty; none of those lines holds a
-- newline, and with a newline behind each they are the whole output, with a newline behind it unless
-- it is empty or has one there.
pub stream_output_lem :
    (has_room : ℕ → Bool) (chunks : List Bytes) (last : Bytes)
    → ((n : ℕ) → has_room n ≡ true)
    → All (λ chunk. ends_with_newline chunk ≡ true) chunks
    → (lines : List Bytes) × All IsOneLine lines
      × (unlines lines ≡ terminated (flatten chunks ++ last))
      × (stream_output has_room (chunks ++ last ∷ []) ≡ shown lines)
unfolding stream_output
stream_output_lem has_room chunks last roomy a =
    let (one_line, whole) = split_lines_lem (flatten chunks ++ last) in
    (
      split_lines (flatten chunks ++ last),
      one_line,
      whole,
      stream_from has_room roomy (record { incomplete = []; taken = []; sends = 0 }) chunks last
          refl a,
    )
