-- ===== src/Server/Hub/Streams.antt =====
-- Whole histories of the hub of server/internal/api/sse/hub.go, and a stream's way through it.
use text.Mathlib.TextEquality.{eq_iff}
use text.Mathlib.TextPositions.{eq_refl}
use jackrabbit.Base.{
  ℕ, suc, ◌≡◌, refl, ap, subst, ◌∙◌, String, string_eq, nat_eq, ◌==◌, Bool, true, false, Option,
  none, some, List, [], ◌∷◌, ◌++◌, length, arith, if◌then◌else◌, All, Bool-cases, inl, inr,
}
use jackrabbit.Dict
use jackrabbit.Dict.{lookup-insert, lookup-delete, All-insert}
use jackrabbit.Server.Hub.{
  Hub, Channel, Event, channels, or_nil, send, register, unregister, put_channels, remove_channel,
  receive, receive_from, take_event, received, new_hub,
}
use jackrabbit.Server.Hub.Sending.{channels-insert}
use jackrabbit.Server.Hub.Lifetime.{
  IsSound, IsEntry, IsValid, channels-IsSound, register-IsValid, unregister-IsValid, send-IsValid,
}

received_sound :
    (next : ℕ) (c : Channel) (es : List Event) (cs : List Channel)
    → c.events ≡ es
    → All (IsSound next) (c ∷ cs)
    → IsEntry next ("", (received c es cs).1)
unfolding received
received_sound next c [] cs q a = ((λ e. cc), a)
received_sound next c (e ∷ es) cs q a =
    ((λ e. cc), ((a.0.0, omega (arith, ap length q, a.0.1)), a.1))

take_sound :
    (next ch : ℕ) (c : Channel) (cs : List Channel)
    → All (IsSound next) (c ∷ cs)
    → IsEntry next ("", (take_event ch (c ∷ cs)).1)
unfolding take_event
take_sound next ch c cs a = elim (Bool-cases (c.id == ch)) [
  | inl t ↦ rw t (received_sound next c c.events cs refl a)
  | inr f ↦ rw f ((λ e. cc), (a.0, take_all cs a.1))
]
  where
    take_all : (ds : List Channel) → All (IsSound next) ds → All (IsSound next) (take_event ch ds).1
    take_all [] b = tt
    take_all (d ∷ ds) b = elim (Bool-cases (d.id == ch)) [
      | inl t ↦ rw t (received_sound next d d.events ds refl b).1
      | inr f ↦ rw f (b.0, take_all ds b.1)
    ]

taken :
    (h : Hub) (slug : String) (ch : ℕ) (cs : List Channel)
    → IsValid h
    → IsEntry h.next_channel (slug, cs)
    → All (IsEntry h.next_channel) (Dict.insert slug (take_event ch cs).1 h.connections)
taken h slug ch [] v entry = absurd (entry.0 refl)
taken h slug ch (c ∷ cs) v entry =
    All-insert (IsEntry h.next_channel) slug _ h.connections
      (take_sound h.next_channel ch c cs entry.1) v.entries

lookup-IsEntry :
    (next : ℕ) (slug : String) (m : List (String × List Channel)) (cs : List Channel)
    → All (IsEntry next) m
    → Dict.lookup slug m ≡ some cs
    → IsEntry next (slug, cs)
unfolding Dict.lookup
lookup-IsEntry next slug [] cs a h = absurd (ground arith)
lookup-IsEntry next slug ((k, ds) ∷ m) cs a h = elim (Bool-cases (k == slug)) [
  | inl t ↦ subst (λ es. IsEntry next (slug, es)) (some_same (rw t at h)) a.0
  | inr f ↦ lookup-IsEntry next slug m cs a.1 (rw f at h)
]
  where
    some_same :
        {xs ys : List Channel} → ◌≡◌ {A = Option (List Channel)} (some xs) (some ys) → xs ≡ ys
    some_same e = cc

receive_from-IsValid :
    (h : Hub) (slug : String) (ch : ℕ) (o : Option (List Channel))
    → Dict.lookup slug h.connections ≡ o
    → IsValid h
    → IsValid (receive_from h slug ch o).1
unfolding receive_from
receive_from-IsValid h slug ch none e v = v
receive_from-IsValid h slug ch (some cs) e v = record {
  entries = taken h slug ch cs v (lookup-IsEntry h.next_channel slug h.connections cs v.entries e);
}

receive-IsValid : (h : Hub) (slug : String) (ch : ℕ) → IsValid h → IsValid (receive h slug ch).1
unfolding receive
receive-IsValid h slug ch v = receive_from-IsValid h slug ch (Dict.lookup slug h.connections) refl v

-- What happens to the hub: its three methods, and a stream's receive from a channel.
pub data Action : Type 0 where
  registers : String → Action
  unregisters : String → ℕ → Action
  sends : String → Event → Action
  receives : String → ℕ → Action

unfoldable pub act : Hub → Action → Hub
act h (registers slug) = (register h slug).1
act h (unregisters slug ch) = unregister h slug ch
act h (sends slug e) = (send h slug e).1
act h (receives slug ch) = (receive h slug ch).1

unfoldable pub run : Hub → List Action → Hub
run h [] = h
run h (a ∷ rest) = run (act h a) rest

act-IsValid : (h : Hub) (a : Action) → IsValid h → IsValid (act h a)
unfolding act
act-IsValid h (registers slug) v = register-IsValid h slug v
act-IsValid h (unregisters slug ch) v = unregister-IsValid h slug ch v
act-IsValid h (sends slug e) v = send-IsValid h slug e v
act-IsValid h (receives slug ch) v = receive-IsValid h slug ch v

run-IsValid_from : (h : Hub) (actions : List Action) → IsValid h → IsValid (run h actions)
unfolding run
run-IsValid_from h [] v = v
run-IsValid_from h (a ∷ rest) v = run-IsValid_from (act h a) rest (act-IsValid h a v)

-- After any calls of its methods and any receives, the hub holds no empty entry, no channel holds
-- more than ten events, and every channel's identity is one that was given out before.
pub run-IsValid : (actions : List Action) → IsValid (run new_hub actions)
run-IsValid actions = run-IsValid_from new_hub actions (unfold new_hub in record { entries = tt })

remove_last :
    (next : ℕ) (cs : List Channel) (c : Channel)
    → All (IsSound next) cs
    → c.id ≡ next
    → remove_channel next (cs ++ c ∷ []) ≡ cs
unfolding remove_channel
remove_last next [] c a e = ground arith
remove_last next (d ∷ ds) c a e = ground (arith, remove_last next ds c a.1 e)

put_back :
    (h : Hub) (slug other : String) (cs : List Channel)
    → channels (put_channels h slug cs) other ≡ (if slug == other then cs else channels h other)
unfolding put_channels channels
put_back h slug other [] =
    ap or_nil (lookup-delete slug other h.connections) ∙ split (slug == other)
  where
    split :
        (b : Bool)
        → or_nil (if b then none else Dict.lookup other h.connections)
          ≡ (if b then [] else or_nil (Dict.lookup other h.connections))
    split true = refl
    split false = refl
put_back h slug other (c ∷ cs) = channels-insert h slug other (c ∷ cs) h.next_channel

channels-register :
    (h : Hub) (slug other : String)
    → channels (register h slug).1 other ≡ (
        if slug == other
        then channels h slug ++ record { id = h.next_channel; events = [] } ∷ []
        else channels h other)
unfolding register
channels-register h slug other = channels-insert h slug other _ (suc h.next_channel)

remove_registered :
    (h : Hub) (slug : String)
    → IsValid h
    → remove_channel (register h slug).0 (channels (register h slug).1 slug) ≡ channels h slug
unfolding register
remove_registered h slug v =
    let fresh : Channel = record { id = h.next_channel; events = [] } in
    let now : channels (register h slug).1 slug ≡ channels h slug ++ fresh ∷ [] =
      channels-register h slug slug ∙ rw (eq_refl slug) refl in
    ap (remove_channel h.next_channel) now
    ∙ remove_last h.next_channel (channels h slug) fresh (channels-IsSound h slug v) refl

-- On a hub as its calls leave it, a stream that registers and unregisters leaves every runner with the channels that it had.
pub unregister-register :
    (h : Hub) (slug other : String)
    → IsValid h
    → let (ch, h') = register h slug in channels (unregister h' slug ch) other ≡ channels h other
unfolding unregister
unregister-register h slug other v = put_back (register h slug).1 slug other _ ∙ restored
  where
    restored :
        (if slug == other
          then remove_channel (register h slug).0 (channels (register h slug).1 slug)
          else channels (register h slug).1 other)
        ≡ channels h other
    restored = elim (Bool-cases (slug == other)) [
      | inl t ↦ rw t (remove_registered h slug v ∙ ap (channels h) ((eq_iff slug other).0 t))
      | inr f ↦ rw f (channels-register h slug other ∙ rw f refl)
    ]
