-- ===== src/Client/Listener/Scanning.antt =====
-- The lines of an event of server/internal/api/sse/hub.go, as client/internal/runner/sse.go scans
-- them.
use Prim.Native.Char.{code}
use Prim.Native.String.{◌++◌ as text_append}
use text.Mathlib.TextLemmas.{nil-append, cons-append}
use jackrabbit.Base.{
  String, nat_eq, ◌==◌, ◌≡◌, refl, Bool, false, ◌||◌, ◌∷◌, arith, Bool-cases, inl, inr,
}
use jackrabbit.Client.Listener.{raw_lines, grow, trim_space}

unfoldable pub has_newline : String → Bool
has_newline String.[] = false
has_newline (String.◌∷◌ c s) = code c == b'\n' || has_newline s

-- A line and its newline are scanned off.
pub raw_lines-append :
    (line rest : String)
    → has_newline line ≡ false
    → raw_lines (text_append line (text_append "\n" rest)) ≡ line ∷ raw_lines rest
unfolding raw_lines has_newline grow
raw_lines-append String.[] rest h =
    rw (nil-append (text_append "\n" rest), cons-append "\n" String.[] rest, nil-append rest) refl
raw_lines-append (String.◌∷◌ c line) rest h = elim (Bool-cases (code c == b'\n')) [
  | inl t ↦ absurd (ground arith)
  | inr f ↦
      rw (cons-append c line (text_append "\n" rest), f, raw_lines-append line rest (ground arith))
        refl
]

pub trim_space_led : (s : String) → trim_space (String.◌∷◌ " " s) ≡ trim_space s
unfolding trim_space
trim_space_led s = refl
