-- ===== src/Server/Hub/Sending.antt =====
-- Send of server/internal/api/sse/hub.go: who gets an event, and what the returned Boolean tells.
use text.Mathlib.TextEquality.{eq_iff}
use jackrabbit.Base.{
  ℕ, ◌≤◌, ◌≡◌, ◌≢◌, ◌↔◌, refl, sym, ap, ◌∙◌, String, string_eq, ◌==◌, Bool, true, false, some, List,
  [], ◌∷◌, ◌++◌, map, length, arith, if◌then◌else◌, All, ltb, Bool-cases, inl, inr,
}
use jackrabbit.Dict
use jackrabbit.Dict.{lookup-insert}
use jackrabbit.Server.Hub.{Hub, Channel, Event, channels, or_nil, offer, offered, send}

-- The channels of each slug after those of one slug are replaced.
pub channels-insert :
    (h : Hub) (slug other : String) (cs : List Channel) (next : ℕ)
    → channels
        (record { connections = Dict.insert slug cs h.connections; next_channel = next })
        other
      ≡ (if slug == other then cs else channels h other)
unfolding channels
channels-insert h slug other cs next =
    ap or_nil (lookup-insert slug other cs h.connections) ∙ split (slug == other)
  where
    split :
        (b : Bool)
        → or_nil (if b then some cs else Dict.lookup other h.connections)
          ≡ (if b then cs else or_nil (Dict.lookup other h.connections))
    split true = refl
    split false = refl

-- Replacing the channels of a slug by themselves.
unchanged :
    (h : Hub) (slug other : String)
    → channels h other ≡ (if slug == other then channels h slug else channels h other)
unchanged h slug other = elim (Bool-cases (slug == other)) [
  | inl t ↦ rw t (ap (channels h) (sym ((eq_iff slug other).0 t)))
  | inr f ↦ rw f refl
]

offered_lem :
    (h : Hub) (slug : String) (e : Event) (cs : List Channel)
    → channels h slug ≡ cs
    → let (sent, h') = offered h slug e cs in
      ((sent ≡ true) ↔ (cs ≢ []))
      × ((other : String)
          → channels h' other ≡ (if slug == other then map (offer e) cs else channels h other))
unfolding offered
offered_lem h slug e [] q = (
  ((λ t. absurd (ground arith)), (λ n. absurd (n refl))),
  (λ other. unchanged h slug other ∙ ap (λ cs. if slug == other then cs else channels h other) q),
)
offered_lem h slug e (c ∷ cs) q = (
  ((λ _ n. ground arith), (λ _. refl)),
  (λ other. channels-insert h slug other (map (offer e) (c ∷ cs)) h.next_channel),
)

-- Send answers true exactly when the slug has an open stream. Each channel of the slug is offered
-- the event: it is put behind the events that wait there if fewer than ten do, and dropped
-- otherwise. The channels of other slugs stay as they are.
pub send_lem :
    (h : Hub) (slug : String) (e : Event)
    → let (sent, h') = send h slug e in
      ((sent ≡ true) ↔ (channels h slug ≢ []))
      × ((other : String)
          → channels h' other ≡ (
              if slug == other
              then map
                  (λ c.
                    if ltb (length c.events) 10
                    then record c { events = c.events ++ e ∷ [] }
                    else c)
                  (channels h slug)
              else channels h other))
unfolding send offer
send_lem h slug e = offered_lem h slug e (channels h slug) refl

map_full :
    (e : Event) (cs : List Channel) → All (λ c. 10 ≤ length c.events) cs → map (offer e) cs ≡ cs
unfolding offer
map_full e [] a = refl
map_full e (c ∷ cs) a = ground (arith, map_full e cs a.1)

-- When every channel of the slug is full, Send still answers true, and no channel receives the event.
pub send_drops :
    (h : Hub) (slug : String) (e : Event)
    → channels h slug ≢ []
    → All (λ c. 10 ≤ length c.events) (channels h slug)
    → let (sent, h') = send h slug e in
      (sent ≡ true) × ((other : String) → channels h' other ≡ channels h other)
unfolding send
send_drops h slug e connected full =
    let (answer, after) = offered_lem h slug e (channels h slug) refl in
    (
      answer.1 connected,
      (λ other.
          after other
          ∙ ap (λ cs. if slug == other then cs else channels h other)
              (map_full e (channels h slug) full)
          ∙ sym (unchanged h slug other)),
    )

-- Without a stream nothing is sent.
pub send_closed :
    (h : Hub) (slug : String) (e : Event) → channels h slug ≡ [] → send h slug e ≡ (false, h)
unfolding send offered
send_closed h slug e q = rw q refl
