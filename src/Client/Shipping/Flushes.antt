-- ===== src/Client/Shipping/Flushes.antt =====
-- client/internal/shipper over time: nothing is shipped twice or out of order.
use mathlib.Core.List.{append_assoc, append-nil}
use jackrabbit.Base.{
  suc, ◌-◌, ◌≤◌, leb, ◌≡◌, ◌≢◌, refl, sym, ap, ◌∙◌, Bool, true, false, List, [], ◌∷◌, ◌++◌, length,
  All, arith, if◌then◌else◌,
}
use jackrabbit.Client.Shipping.{
  Shipper, new_shipper, max_batch_size, add, flush, handed, flush_pending,
}

-- What happens to a shipper of logs: an entry is added, the ticker or the end of the program flushes,
-- or a pending flush runs. A flush comes with the server's answer.
pub data Step (E : Type 0) : Type 0 where
  adds : E → Step E
  flushes : Bool → Step E
  runs_pending : Bool → Step E

unfoldable pub step : {E : Type 0} → Shipper E → Step E → Shipper E
step s (adds entry) = add entry s
step s (flushes shipped) = flush shipped s
step s (runs_pending shipped) = flush_pending shipped s

unfoldable pub steps : {E : Type 0} → Shipper E → List (Step E) → Shipper E
unfolding step
steps s [] = s
steps s (e ∷ es) = steps (step s e) es

-- The entries of all batches, and then those of the buffer.
unfoldable pub shipped_first : {E : Type 0} → List (List E × Bool) → List E → List E
shipped_first [] buffer = buffer
shipped_first ((batch, shipped) ∷ batches) buffer = batch ++ shipped_first batches buffer

unfoldable pub added : {E : Type 0} → List (Step E) → List E
added [] = []
added (adds entry ∷ es) = entry ∷ added es
added (flushes _ ∷ es) = added es
added (runs_pending _ ∷ es) = added es

-- A full buffer has a flush that is going to run, and no batch is empty.
pub record IsFlushing {E : Type 0} (s : Shipper E) : Type 0 where
  pub full_pending : max_batch_size ≤ length s.buffer → 1 ≤ s.pending
  pub batches_not_empty : All (λ b. b.0 ≢ []) s.batches

shipped_first-append :
    {E : Type 0} (batches : List (List E × Bool)) (xs ys : List E)
    → shipped_first batches (xs ++ ys) ≡ shipped_first batches xs ++ ys
unfolding shipped_first
shipped_first-append [] xs ys = refl
shipped_first-append ((batch, _) ∷ batches) xs ys =
    ap (λ r. batch ++ r) (shipped_first-append batches xs ys)
    ∙ sym (append_assoc batch (shipped_first batches xs) ys)

shipped_first-snoc :
    {E : Type 0} (batches : List (List E × Bool)) (batch : List E) (shipped : Bool)
    → shipped_first (batches ++ (batch, shipped) ∷ []) [] ≡ shipped_first batches batch
unfolding shipped_first
shipped_first-snoc [] batch shipped = append-nil batch
shipped_first-snoc ((b, _) ∷ batches) batch shipped =
    ap (λ r. b ++ r) (shipped_first-snoc batches batch shipped)

abbrev held : {E : Type 0} → Shipper E → List E
held s = shipped_first s.batches s.buffer

handed-held :
    {E : Type 0} (shipped : Bool) (s : Shipper E) (buffer : List E)
    → s.buffer ≡ buffer
    → held (handed shipped s buffer) ≡ held s
unfolding handed
handed-held shipped s [] q = refl
handed-held shipped s (entry ∷ entries) q =
    shipped_first-snoc s.batches (entry ∷ entries) shipped ∙ ap (shipped_first s.batches) (sym q)

flush-held : {E : Type 0} (shipped : Bool) (s : Shipper E) → held (flush shipped s) ≡ held s
unfolding flush
flush-held shipped s = handed-held shipped s s.buffer refl

steps-held :
    {E : Type 0} (s : Shipper E) (es : List (Step E)) → held (steps s es) ≡ held s ++ added es
unfolding steps added add flush_pending
steps-held s [] = sym (append-nil (held s))
steps-held s (adds entry ∷ es) =
    steps-held (add entry s) es
    ∙ ap (λ r. r ++ added es) (shipped_first-append s.batches s.buffer (entry ∷ []))
    ∙ append_assoc (held s) (entry ∷ []) (added es)
steps-held s (flushes shipped ∷ es) =
    steps-held (flush shipped s) es ∙ ap (λ r. r ++ added es) (flush-held shipped s)
steps-held s (runs_pending shipped ∷ es) =
    steps-held (flush_pending shipped s) es
    ∙ ap (λ r. r ++ added es) (flush-held shipped (record s { pending = s.pending - 1 }))

All-snoc {ℓ κ} :
    {A : Type ℓ} (P : A → Type κ) (xs : List A) (x : A) → All P xs → P x → All P (xs ++ x ∷ [])
All-snoc P [] x a p = (p, tt)
All-snoc P (y ∷ xs) x a p = (a.0, All-snoc P xs x a.1 p)

flush_empties : {E : Type 0} (shipped : Bool) (s : Shipper E) → (flush shipped s).buffer ≡ []
unfolding flush
flush_empties {E = E} shipped s = emptied s.buffer refl
  where
    emptied : (buffer : List E) → s.buffer ≡ buffer → (handed shipped s buffer).buffer ≡ []
    emptied [] q = unfold handed in q
    emptied (entry ∷ entries) q = unfold handed in refl

handed_batches :
    {E : Type 0} (shipped : Bool) (s : Shipper E) (buffer : List E)
    → All (λ b. b.0 ≢ []) s.batches
    → All (λ b. b.0 ≢ []) (handed shipped s buffer).batches
unfolding handed
handed_batches shipped s [] a = a
handed_batches shipped s (entry ∷ entries) a =
    All-snoc (λ b. b.0 ≢ []) s.batches (entry ∷ entries, shipped) a (λ h. cc)

flush-IsFlushing :
    {E : Type 0} (shipped : Bool) (s : Shipper E)
    → All (λ b. b.0 ≢ []) s.batches
    → IsFlushing (flush shipped s)
flush-IsFlushing shipped s a = record {
  full_pending = λ h. absurd (omega (arith, h, ap length (flush_empties shipped s)));
  batches_not_empty = unfold flush in handed_batches shipped s s.buffer a;
}

add-IsFlushing : {E : Type 0} (entry : E) (s : Shipper E) → IsFlushing s → IsFlushing (add entry s)
unfolding add
add-IsFlushing entry s v = record {
  full_pending = λ h. started h (leb max_batch_size (length (s.buffer ++ entry ∷ []))) refl;
  batches_not_empty = v.batches_not_empty;
}
  where
    started :
        max_batch_size ≤ length (s.buffer ++ entry ∷ [])
        → (b : Bool) → leb max_batch_size (length (s.buffer ++ entry ∷ [])) ≡ b
        → 1 ≤ (if b then suc s.pending else s.pending)
    started h true q = omega arith
    started h false q = absurd (ground (arith, h, q))

steps-IsFlushing :
    {E : Type 0} (s : Shipper E) (es : List (Step E)) → IsFlushing s → IsFlushing (steps s es)
unfolding steps flush_pending
steps-IsFlushing s [] v = v
steps-IsFlushing s (adds entry ∷ es) v =
    steps-IsFlushing (add entry s) es (add-IsFlushing entry s v)
steps-IsFlushing s (flushes shipped ∷ es) v =
    steps-IsFlushing (flush shipped s) es (flush-IsFlushing shipped s v.batches_not_empty)
steps-IsFlushing s (runs_pending shipped ∷ es) v =
    steps-IsFlushing (flush_pending shipped s) es
      (flush-IsFlushing shipped (record s { pending = s.pending - 1 }) v.batches_not_empty)

-- However adds and flushes interleave, the batches that were handed to the server, one after
-- another, and then the buffer are the entries that were added, in order; no batch is empty; and
-- while the buffer is full a flush is pending.
pub steps_lem :
    {E : Type 0} (es : List (Step E))
    → let s = steps new_shipper es in (shipped_first s.batches s.buffer ≡ added es) × IsFlushing s
unfolding new_shipper shipped_first
steps_lem es = (
  steps-held new_shipper es,
  steps-IsFlushing new_shipper es
      (record { full_pending = λ h. absurd (omega (arith, h)); batches_not_empty = tt }),
)
