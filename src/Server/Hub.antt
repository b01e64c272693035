-- ===== src/Server/Hub.antt =====
-- server/internal/api/sse/hub.go: the streams that are open for each runner, and their channels.
pub mod Sending
pub mod Lifetime
pub mod Streams
use jackrabbit.Base.{
  ℕ, suc, String, ℤ, nat_eq, ltb, ◌==◌, if◌then◌else◌, Bool, true, false, Option, none, some, List,
  [], ◌∷◌, ◌++◌, map, length,
}
use jackrabbit.Models.{Uuid, Payload}
use jackrabbit.Dict

-- The events that the server sends, with their data.
pub data Event : Type 0 where
  command_dispatch : Uuid → Payload → ℤ → Event
  ping : Event

-- make(chan Event, 10). `id` tells channels apart, as Go's == does.
pub record Channel : Type 0 where
  pub id : ℕ
  pub events : List Event

abbrev pub capacity : ℕ
capacity = 10

pub record Hub : Type 0 where
  pub connections : List (String × List Channel)
  -- The identity of the next channel.
  pub next_channel : ℕ

unfoldable pub new_hub : Hub
new_hub = record { connections = []; next_channel = 0 }

-- A missing key reads as the nil slice.
abbrev pub or_nil : Option (List Channel) → List Channel
or_nil none = []
or_nil (some cs) = cs

unfoldable pub channels : Hub → String → List Channel
channels h slug = or_nil (Dict.lookup slug h.connections)

unfoldable pub register : Hub → String → ℕ × Hub
register h slug = (
  h.next_channel,
  record {
    connections =
        Dict.insert slug (channels h slug ++ record { id = h.next_channel; events = [] } ∷ [])
          h.connections;
    next_channel = suc h.next_channel;
  },
)

-- The loop of Unregister takes out the first channel that is `ch`.
unfoldable pub remove_channel : ℕ → List Channel → List Channel
remove_channel ch [] = []
remove_channel ch (c ∷ cs) = if c.id == ch then cs else c ∷ remove_channel ch cs

-- An entry with no channel left is deleted.
put_channels : Hub → String → List Channel → Hub
put_channels h slug [] = record h { connections = Dict.delete slug h.connections }
put_channels h slug (c ∷ cs) = record h { connections = Dict.insert slug (c ∷ cs) h.connections }

unfoldable pub unregister : Hub → String → ℕ → Hub
unfolding put_channels channels remove_channel
unregister h slug ch = put_channels h slug (remove_channel ch (channels h slug))

-- `select { case ch <- event: default: }`: a full channel drops the event.
unfoldable pub offer : Event → Channel → Channel
offer e c = if ltb (length c.events) capacity then record c { events = c.events ++ e ∷ [] } else c

offered : Hub → String → Event → List Channel → Bool × Hub
unfolding offer
offered h slug e [] = (false, h)
offered h slug e (c ∷ cs) =
    (true, record h { connections = Dict.insert slug (map (offer e) (c ∷ cs)) h.connections })

unfoldable pub send : Hub → String → Event → Bool × Hub
unfolding offered channels
send h slug e = offered h slug e (channels h slug)

received : Channel → List Event → List Channel → Option Event × List Channel
received c [] cs = (none, c ∷ cs)
received c (e ∷ es) cs = (some e, record c { events = es } ∷ cs)

take_event : ℕ → List Channel → Option Event × List Channel
unfolding received
take_event ch [] = (none, [])
take_event ch (c ∷ cs) =
    let (found, rest) = take_event ch cs in
    if c.id == ch then received c c.events cs else (found, c ∷ rest)

receive_from : Hub → String → ℕ → Option (List Channel) → Option Event × Hub
unfolding take_event
receive_from h slug ch none = (none, h)
receive_from h slug ch (some cs) =
    let (found, left) = take_event ch cs in
    (found, record h { connections = Dict.insert slug left h.connections })

-- `case event := <-eventCh` of the stream handler, on its own channel.
unfoldable pub receive : Hub → String → ℕ → Option Event × Hub
unfolding receive_from
receive h slug ch = receive_from h slug ch (Dict.lookup slug h.connections)
