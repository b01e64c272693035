-- ===== src/Server/Handlers/Commands/Choice.antt =====
-- The runner that Send of server/internal/api/handlers/commands.go notifies for a tag.
use jackrabbit.Base.{
  ◌≡◌, refl, ◌∙◌, ◌⊎◌, inl, inr, true, List, [], ◌∷◌, Memᴰ, All, arith, Bool-cases, ltb_ℤ, leb_ℤ,
}
use jackrabbit.Models.{Runner}
use jackrabbit.Server.Handlers.Commands.{least_busy, lesser}

-- One runner has at most as many active commands as another.
abbrev pub NoBusier : Runner → Runner → Type 0
NoBusier r s = leb_ℤ r.active_count s.active_count ≡ true

NoBusier-trans : (r s t : Runner) → NoBusier r s → NoBusier s t → NoBusier r t
NoBusier-trans r s t p q = ground arith

lesser_lem :
    (best r : Runner)
    → ((lesser best r ≡ best) ⊎ (lesser best r ≡ r))
      × NoBusier (lesser best r) best
      × NoBusier (lesser best r) r
lesser_lem best r = elim (Bool-cases (ltb_ℤ r.active_count best.active_count)) [
  | inl t ↦ rw t (inr refl, ground (arith, t), ground arith)
  | inr f ↦ rw f (inl refl, ground arith, ground (arith, f))
]

among :
    (best r chosen : Runner) (rs : List Runner)
    → (lesser best r ≡ best) ⊎ (lesser best r ≡ r)
    → (chosen ≡ lesser best r) ⊎ Memᴰ chosen rs
    → (chosen ≡ best) ⊎ Memᴰ chosen (r ∷ rs)
among best r chosen rs o (inr m) = inr (Memᴰ.tail m)
among best r chosen rs (inl p) (inl q) = inl (q ∙ p)
among best r chosen rs (inr p) (inl q) = inr (Memᴰ.head (q ∙ p))

-- The chosen runner is one of those given, and none of them has fewer active commands.
pub least_busy_lem :
    (best : Runner) (rs : List Runner)
    → let chosen = least_busy best rs in
      ((chosen ≡ best) ⊎ Memᴰ chosen rs) × NoBusier chosen best × All (NoBusier chosen) rs
unfolding least_busy
least_busy_lem best [] = (inl refl, ground arith, tt)
least_busy_lem best (r ∷ rs) =
    let chosen = least_busy (lesser best r) rs in
    let (one, low, all) = least_busy_lem (lesser best r) rs in
    let (o, p, q) = lesser_lem best r in
    (
      among best r chosen rs o one,
      NoBusier-trans chosen (lesser best r) best low p,
      (NoBusier-trans chosen (lesser best r) r low q, all),
    )
