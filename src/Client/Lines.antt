-- ===== src/Client/Lines.antt =====
-- client/internal/runner/executor.go: how the output of a process becomes lines. Bytes are numbers.
pub mod Splitting
pub mod Streaming
pub mod Repeats
use jackrabbit.Base.{
  ℕ, suc, ◌+◌, nat_eq, ◌==◌, if◌then◌else◌, Bool, true, false, List, [], ◌∷◌, ◌++◌,
}

abbrev pub Bytes : Type 0
Bytes = List ℕ

-- What stands between `start` and `i`, and what stands from `i`.
lines_from : Bytes → Bytes → List Bytes
lines_from [] [] = []
lines_from (c ∷ seg) [] = (c ∷ seg) ∷ []
lines_from seg (b ∷ rest) =
    if b == b'\n' then seg ∷ lines_from [] rest else lines_from (seg ++ b ∷ []) rest

unfoldable pub split_lines : Bytes → List Bytes
unfolding lines_from
split_lines bytes = lines_from [] bytes

unfoldable pub ends_with_newline : Bytes → Bool
ends_with_newline [] = false
ends_with_newline (b ∷ []) = b == b'\n'
ends_with_newline (b ∷ c ∷ rest) = ends_with_newline (c ∷ rest)

-- `incomplete`, the lines that the channel took, and the number of sends so far.
pub record Output : Type 0 where
  pub incomplete : Bytes
  pub taken : List Bytes
  pub sends : ℕ

-- A send of a line. `has_room` tells whether the channel has room at the n-th send; if not, the line
-- is dropped.
unfoldable pub send_line : (ℕ → Bool) → Bytes → Output → Output
send_line has_room [] o = o
send_line has_room (c ∷ line) o = record {
  incomplete = o.incomplete;
  taken = if has_room o.sends then o.taken ++ (c ∷ line) ∷ [] else o.taken;
  sends = suc o.sends;
}

-- The loop over the lines: the last one waits in `incomplete` if no newline ends it.
unfoldable pub send_lines : (ℕ → Bool) → Bool → List Bytes → Output → Output
unfolding send_line
send_lines has_room complete [] o = o
send_lines has_room complete (line ∷ []) o =
    if complete then send_line has_room line o else record o { incomplete = line }
send_lines has_room complete (line ∷ next ∷ lines) o =
    send_lines has_room complete (next ∷ lines) (send_line has_room line o)

-- One pipe.Read; nothing is done where it gives no bytes.
unfoldable pub read_chunk : (ℕ → Bool) → Output → Bytes → Output
unfolding send_lines split_lines ends_with_newline
read_chunk has_room o [] = o
read_chunk has_room o (b ∷ chunk) =
    let bytes = o.incomplete ++ b ∷ chunk in
    send_lines has_room (ends_with_newline bytes) (split_lines bytes) o

unfoldable pub read_chunks : (ℕ → Bool) → Output → List Bytes → Output
unfolding read_chunk
read_chunks has_room o [] = o
read_chunks has_room o (chunk ∷ chunks) = read_chunks has_room (read_chunk has_room o chunk) chunks

-- The last send, after the pipe is closed, waits for room.
unfoldable pub send_rest : Output → List Bytes
send_rest o = rest_of o.incomplete o.taken
  where
    rest_of : Bytes → List Bytes → List Bytes
    rest_of [] taken = taken
    rest_of (c ∷ line) taken = taken ++ (c ∷ line) ∷ []

-- All of streamOutput, for the chunks that the reads give before the pipe ends or fails.
unfoldable pub stream_output : (ℕ → Bool) → List Bytes → List Bytes
unfolding read_chunks send_rest
stream_output has_room chunks =
    send_rest (read_chunks has_room (record { incomplete = []; taken = []; sends = 0 }) chunks)
