-- ===== src/Server/Hub/Lifetime.antt =====
-- The streams of server/internal/api/sse/hub.go over time: what Register, Unregister, Send and the
-- streams' own receives keep true of the hub.
use jackrabbit.Base.{
  ℕ, suc, ◌≤◌, ◌<◌, ◌≢◌, String, string_eq, nat_eq, ◌==◌, List, [], ◌∷◌, ◌++◌, map, length,
  length-append, arith, All, Bool-cases, inl, inr,
}
use jackrabbit.Dict
use jackrabbit.Dict.{lookup-insert, lookup-delete, All-insert, All-delete}
use jackrabbit.Server.Hub.{
  Hub, Channel, Event, channels, or_nil, offer, offered, send, register, unregister, put_channels,
  remove_channel,
}

-- A channel that the hub made earlier and that is not over-full.
abbrev pub IsSound : ℕ → Channel → Type 0
IsSound next c = (c.id < next) × (length c.events ≤ 10)

-- An entry of the map: some channels, and sound ones.
abbrev pub IsEntry : ℕ → String × List Channel → Type 0
IsEntry next (slug, cs) = (cs ≢ []) × All (IsSound next) cs

pub record IsValid (h : Hub) : Type 0 where
  pub entries : All (IsEntry h.next_channel) h.connections

All-lookup :
    (next : ℕ) (slug : String) (m : List (String × List Channel))
    → All (IsEntry next) m
    → All (IsSound next) (or_nil (Dict.lookup slug m))
unfolding Dict.lookup
All-lookup next slug [] a = tt
All-lookup next slug ((k, cs) ∷ m) a = elim (Bool-cases (k == slug)) [
  | inl t ↦ rw t a.0.1
  | inr f ↦ rw f (All-lookup next slug m a.1)
]

pub channels-IsSound :
    (h : Hub) (slug : String) → IsValid h → All (IsSound h.next_channel) (channels h slug)
unfolding channels
channels-IsSound h slug v = All-lookup h.next_channel slug h.connections v.entries

IsSound-later : (next : ℕ) (cs : List Channel) → All (IsSound next) cs → All (IsSound (suc next)) cs
IsSound-later next [] a = tt
IsSound-later next (c ∷ cs) a = ((omega arith, a.0.1), IsSound-later next cs a.1)

entries_later :
    (next : ℕ) (m : List (String × List Channel))
    → All (IsEntry next) m
    → All (IsEntry (suc next)) m
entries_later next [] a = tt
entries_later next ((k, cs) ∷ m) a =
    ((a.0.0, IsSound-later next cs a.0.1), entries_later next m a.1)

IsSound-snoc :
    (next : ℕ) (cs : List Channel)
    → All (IsSound next) cs
    → All (IsSound (suc next)) (cs ++ record { id = next; events = [] } ∷ [])
IsSound-snoc next [] a = ((omega arith, omega arith), tt)
IsSound-snoc next (c ∷ cs) a = ((omega arith, a.0.1), IsSound-snoc next cs a.1)

snoc-ne-nil {ℓ} : {A : Type ℓ} (xs : List A) (x : A) → xs ++ x ∷ [] ≢ []
snoc-ne-nil [] x h = cc
snoc-ne-nil (y ∷ ys) x h = cc

pub register-IsValid : (h : Hub) (slug : String) → IsValid h → IsValid (register h slug).1
unfolding register
register-IsValid h slug v = record {
  entries =
      All-insert (IsEntry (suc h.next_channel)) slug _ h.connections
        (
          snoc-ne-nil (channels h slug) _,
          IsSound-snoc h.next_channel (channels h slug) (channels-IsSound h slug v),
        )
        (entries_later h.next_channel h.connections v.entries);
}

pub remove-IsSound :
    (next ch : ℕ) (cs : List Channel)
    → All (IsSound next) cs
    → All (IsSound next) (remove_channel ch cs)
unfolding remove_channel
remove-IsSound next ch [] a = tt
remove-IsSound next ch (c ∷ cs) a = elim (Bool-cases (c.id == ch)) [
  | inl t ↦ rw t a.1
  | inr f ↦ rw f (a.0, remove-IsSound next ch cs a.1)
]

put-IsValid :
    (h : Hub) (slug : String) (cs : List Channel)
    → IsValid h
    → All (IsSound h.next_channel) cs
    → IsValid (put_channels h slug cs)
unfolding put_channels
put-IsValid h slug [] v a = record {
  entries = All-delete (IsEntry h.next_channel) slug h.connections v.entries;
}
put-IsValid h slug (c ∷ cs) v a = record {
  entries =
      All-insert (IsEntry h.next_channel) slug (c ∷ cs) h.connections ((λ e. cc), a) v.entries;
}

pub unregister-IsValid :
    (h : Hub) (slug : String) (ch : ℕ) → IsValid h → IsValid (unregister h slug ch)
unfolding unregister
unregister-IsValid h slug ch v =
    put-IsValid h slug _ v
      (remove-IsSound h.next_channel ch (channels h slug) (channels-IsSound h slug v))

offer-IsSound : (next : ℕ) (e : Event) (c : Channel) → IsSound next c → IsSound next (offer e c)
unfolding offer
offer-IsSound next e c a = ground (arith, length-append c.events (e ∷ []))

map-offer-IsSound :
    (next : ℕ) (e : Event) (cs : List Channel)
    → All (IsSound next) cs
    → All (IsSound next) (map (offer e) cs)
map-offer-IsSound next e [] a = tt
map-offer-IsSound next e (c ∷ cs) a = (offer-IsSound next e c a.0, map-offer-IsSound next e cs a.1)

offered-IsValid :
    (h : Hub) (slug : String) (e : Event) (cs : List Channel)
    → IsValid h
    → All (IsSound h.next_channel) cs
    → IsValid (offered h slug e cs).1
unfolding offered
offered-IsValid h slug e [] v a = v
offered-IsValid h slug e (c ∷ cs) v a = record {
  entries =
      All-insert (IsEntry h.next_channel) slug _ h.connections
        ((λ q. cc), map-offer-IsSound h.next_channel e (c ∷ cs) a) v.entries;
}

pub send-IsValid : (h : Hub) (slug : String) (e : Event) → IsValid h → IsValid (send h slug e).1
unfolding send
send-IsValid h slug e v = offered-IsValid h slug e (channels h slug) v (channels-IsSound h slug v)
