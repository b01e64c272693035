-- ===== src/Server/Dispatch.antt =====
-- How a command reaches a runner: the LISTEN/NOTIFY handler of server/cmd/server/main.go, and the
-- stream handler of server/internal/api/sse/handler.go with its flush of the queue.
pub mod Payload
pub mod Delivery
pub mod Redelivery
pub mod Arrival
use Prim.Native.Char.{Char, code}
use jackrabbit.Base.{
  ℕ, String, ℤ, nat_eq, ◌==◌, if◌then◌else◌, Bool, true, false, Option, none, some, List, [], ◌∷◌,
}
use jackrabbit.Models.{Uuid, Command, Runner}
use jackrabbit.Results.{Result, ok, err}
use jackrabbit.Server.Store.{Store}
use jackrabbit.Server.Hub
use jackrabbit.Server.Hub.{Hub, Event, command_dispatch}

prepend : Char → List String → List String
prepend c [] = []
prepend c (part ∷ parts) = String.◌∷◌ c part ∷ parts

-- The payload up to its first colon, and what follows. A colon is one byte, so the bytes before it
-- are the characters before it.
unfoldable pub split_notification_payload : String → List String
unfolding prepend
split_notification_payload String.[] = String.[] ∷ []
split_notification_payload (String.◌∷◌ c s) =
    if code c == b':' then String.[] ∷ s ∷ [] else prepend c (split_notification_payload s)

-- What the server keeps: the store and the hub.
pub record World (S : Type 0) : Type 0 where
  pub store_state : S
  pub hub : Hub

abbrev pub dispatch_event : Command → Event
dispatch_event c = command_dispatch c.id c.payload c.timeout_secs

module _ {S : Type 0} (store : Store S) where
  -- An error of the increment is only logged.
  count_dispatch : String → Bool × Hub → S → World S
  count_dispatch slug (true, hub) s = record {
    store_state = (store.increment_runner_active_count s slug (ℤ.pos 1)).1;
    hub = hub;
  }
  count_dispatch slug (false, hub) s = record { store_state = s; hub = hub }

  deliver : String → Hub → Result Command × S → World S
  unfolding count_dispatch
  deliver slug hub (err e, s) = record { store_state = s; hub = hub }
  deliver slug hub (ok cmd, s) = count_dispatch slug (Hub.send hub slug (dispatch_event cmd)) s

  notify_parts : (String → Option Uuid) → World S → List String → World S
  unfolding deliver
  notify_parts parse_uuid w (slug ∷ id_str ∷ []) = elim (parse_uuid id_str) [
    | none ↦ w
    | some id ↦ deliver slug w.hub (store.get_command w.store_state id)
  ]
  notify_parts parse_uuid w _ = w

  unfoldable pub handle_notification : (String → Option Uuid) → World S → String → World S
  unfolding notify_parts
  handle_notification parse_uuid w payload =
      notify_parts parse_uuid w (split_notification_payload payload)

  flush_claimed : String → Hub → Result Command × S → World S
  flush_claimed slug hub (err e, s) = record { store_state = s; hub = hub }
  flush_claimed slug hub (ok cmd, s) = record {
    store_state = (store.increment_runner_active_count s slug (ℤ.pos 1)).1;
    hub = (Hub.send hub slug (dispatch_event cmd)).1;
  }

  flush_runner : String → Hub → Result Runner × S → World S
  unfolding flush_claimed
  flush_runner slug hub (err e, s) = record { store_state = s; hub = hub }
  flush_runner slug hub (ok r, s) = flush_claimed slug hub (store.claim_next_command s slug r.tags)

  unfoldable pub flush_queued_commands : World S → String → World S
  unfolding flush_runner
  flush_queued_commands w slug = flush_runner slug w.hub (store.get_runner w.store_state slug)

  open_stream : String → Hub → Result Runner × S → Result ℕ × World S
  open_stream slug hub (err e, s) = (err e, record { store_state = s; hub = hub })
  open_stream slug hub (ok r, s) =
      let (ch, hub') = Hub.register hub slug in (ok ch, record { store_state = s; hub = hub' })

  -- The start of Stream: the runner is looked up, and a channel is registered. The flush of the queue
  -- is a goroutine of its own, and other calls of the store and the hub may come before it.
  unfoldable pub start_stream : World S → String → Result ℕ × World S
  unfolding open_stream
  start_stream w slug = open_stream slug w.hub (store.get_runner w.store_state slug)

-- The deferred Unregister at the end of Stream.
unfoldable pub end_stream : {S : Type 0} → World S → String → ℕ → World S
end_stream w slug ch = record w { hub = Hub.unregister w.hub slug ch }
