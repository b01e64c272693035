-- ===== src/Server/Handlers/Commands/Tagged.antt =====
-- Send of server/internal/api/handlers/commands.go for a tag, on PostgreSQL.
use jackrabbit.Base.{
  String, string_eq, ◌≡◌, refl, sym, ap, subst, ◌⊎◌, ◌↔◌, inl, inr, true, All-mem, List, [], ◌∷◌,
  ◌++◌, Memᴰ, some,
}
use jackrabbit.Models.{Uuid, Runner}
use jackrabbit.Results.{ok}
use jackrabbit.Db.{Db}
use jackrabbit.Db.Runners.{list_runners}
use jackrabbit.Db.Runners.Listing.{IsWanted, list_runners_lem}
use jackrabbit.Db.Notify.{Engine, notification_payload, is_plain}
use jackrabbit.Server.Store.{postgres}
use jackrabbit.Server.Http.{respond, command}
use jackrabbit.Server.Handlers.Commands.{
  CommandRequest, with_timeout, send, dispatch_created, notify_least_busy, least_busy,
}
use jackrabbit.Server.Handlers.Commands.Choice.{NoBusier, least_busy_lem}
use jackrabbit.Server.Handlers.Commands.Sent.{
  Accepted, queued_row, with_row, send-Accepted, plain_sent,
}

-- No runner that is online has the tag, and no notification is sent; or one is sent to such a
-- runner, and none of them has fewer active commands.
abbrev pub IsNotified : Engine → Db → Uuid → String → Db → Type 0
IsNotified e db id tag db' =
    (((r : Runner) → Memᴰ r db.runners → ¬ IsWanted (tag ∷ []) "online" r)
      × (db'.notifications ≡ db.notifications))
    ⊎ ((chosen : Runner) × Memᴰ chosen db.runners
        × IsWanted (tag ∷ []) "online" chosen
        × ((r : Runner) → Memᴰ r db.runners → IsWanted (tag ∷ []) "online" r → NoBusier chosen r)
        × (db'.notifications
            ≡ db.notifications ++ notification_payload chosen.slug (e.print_uuid id) ∷ []))

module _ (e : Engine) (db : Db) (id : Uuid) (req : CommandRequest) where
  abbrev pub row_added : Db
  row_added = with_row e db id req

  abbrev pub online : List Runner
  online = list_runners db (req.target_value ∷ []) "online"

  pub tag_dispatch :
      req.target_type ≡ "tag"
      → dispatch_created (postgres e) row_added (with_timeout req) id
        ≡ notify_least_busy (postgres e) (ok online, row_added) id
  unfolding dispatch_created list_runners
  tag_dispatch tag = rw tag refl

  pub wanted :
      (r : Runner)
      → Memᴰ r online ↔ (Memᴰ r db.runners × IsWanted (req.target_value ∷ []) "online" r)
  wanted = (list_runners_lem db (req.target_value ∷ []) "online").0

  pub chosen_listed : (r : Runner) (rs : List Runner) → Memᴰ (least_busy r (r ∷ rs)) (r ∷ rs)
  chosen_listed r rs = elim (least_busy_lem r (r ∷ rs)).0 [ inl same ↦ Memᴰ.head same | inr m ↦ m ]

  tag-IsNotified :
      (rs : List Runner)
      → online ≡ rs
      → ((r : Runner)
          → Memᴰ r db.runners
          → is_plain (notification_payload r.slug (e.print_uuid id)) ≡ true)
      → let db' = notify_least_busy (postgres e) (ok rs, row_added) id in
        (db'.commands ≡ row_added.commands) × IsNotified e db id req.target_value db'
  unfolding notify_least_busy
  tag-IsNotified [] q plain =
      (refl, inl ((λ r m w. elim (subst (Memᴰ r) q ((wanted r).1 (m, w))) [ ]), refl))
  tag-IsNotified (r ∷ rs) q plain =
      let best = least_busy r (r ∷ rs) in
      let (m, w) = (wanted best).0 (subst (Memᴰ best) (sym q) (chosen_listed r rs)) in
      let sent = plain_sent e db id req best.slug (plain best m) in
      (
        ap (λ d. d.commands) sent,
        inr (
          best,
          m,
          w,
          (λ s n v.
              All-mem (NoBusier best) (r ∷ rs) s (least_busy_lem r (r ∷ rs)).2
                (subst (Memᴰ s) q ((wanted s).1 (n, v)))),
          ap (λ d. d.notifications) sent,
        ),
      )

-- A request for a tag is answered with the row that it appends to the queue, if it has a value, its
-- numbers fit their columns and the identifier is new. If no runner that is online has the tag,
-- nobody is notified; otherwise one such runner is, and none of them has fewer active commands,
-- provided that no payload for a runner has a quote or is too long.
pub send_notifies_least_busy :
    (e : Engine) (db : Db) (id : Uuid) (req : CommandRequest)
    → Accepted db id req
    → req.target_type ≡ "tag"
    → ((r : Runner)
        → Memᴰ r db.runners
        → is_plain (notification_payload r.slug (e.print_uuid id)) ≡ true)
    → let (response, db') = send (postgres e) id db (some req) in
      (response ≡ respond 200 (command (queued_row db id req)))
      × (db'.commands ≡ db.commands ++ queued_row db id req ∷ [])
      × IsNotified e db id req.target_value db'
send_notifies_least_busy e db id req good tag plain =
    let (queue, notified) = tag-IsNotified e db id req (online e db id req) refl plain in
    rw (send-Accepted e db id req good, tag_dispatch e db id req tag) (refl, queue, notified)
