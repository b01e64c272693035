-- ===== src/Db/Commands/Expiry.antt =====
-- FailExpiredCommands and FailStuckCommands of server/internal/store/postgres/store.go, row by row.
use text.Mathlib.TextEquality.{eq_iff}
use jackrabbit.Base.{
  ◌<◌, ◌≡◌, ◌⊎◌, ◌↔◌, refl, sym, ap, String, string_eq, nat_eq, Bool, true, ◌&&◌, Option, none,
  some, arith, if◌then◌else◌, tests, Memᴰ,
}
use jackrabbit.Models.{Command, Runner, Time, Uuid}
use jackrabbit.Results.{ok}
use jackrabbit.Table.Rows.{affected-update_same}
use jackrabbit.Table.Keys.{affected-mem, mem-affected}
use jackrabbit.Db.State.{Db, has_slug, before}
use jackrabbit.Db.Runners.{mark_orphaned_runners, is_lost, orphan}
use jackrabbit.Db.Commands.{
  get_command, is_expired, fail_with, fail_expired_commands, is_stuck, is_away, runner_away,
  fail_stuck_commands,
}
use jackrabbit.Db.Commands.Lookup.{get_command-update}

-- A command that is under way, and whose deadline is past.
pub record IsExpired (now : Time) (c : Command) : Type 0 where
  pub under_way : (c.status ≡ "pending") ⊎ (c.status ≡ "running")
  pub too_late : (t : Time) × (c.deadline ≡ some t) × (t < now)

past : (o : Option Time) (now : Time) → before o now ≡ true → (t : Time) × (o ≡ some t) × (t < now)
past none now h = absurd (ground arith)
past (some t) now h = (t, refl, omega tests)

and-true : (a b : Bool) → (a && b) ≡ true → (a ≡ true) × (b ≡ true)
and-true a b h = ground arith

pub is_expired_iff : (now : Time) (c : Command) → (is_expired now c ≡ true) ↔ IsExpired now c
is_expired_iff now c = (
  (λ h.
      let (s, d) = and-true _ (before c.deadline now) h in
      record {
        under_way = ground (arith, eq_iff c.status "pending", eq_iff c.status "running");
        too_late = past c.deadline now d;
      }),
  (λ x.
      let (t, d, lt) = x.too_late in
      rw d (ground (arith, x.under_way, eq_iff c.status "pending", eq_iff c.status "running", lt))),
)

pub expired_row :
    (db : Db) (now : Time) (id : Uuid) (c : Command)
    → get_command db id ≡ ok c
    → get_command (fail_expired_commands db now).1 id
      ≡ ok (if is_expired now c then fail_with "deadline exceeded" db.now c else c)
unfolding fail_expired_commands
expired_row db now id c h =
    get_command-update db (is_expired now) (fail_with "deadline exceeded" db.now) (λ d. refl) id c h

pub stuck_row :
    (db : Db) (id : Uuid) (c : Command)
    → get_command db id ≡ ok c
    → get_command (fail_stuck_commands db).1 id
      ≡ ok (if is_stuck db c then fail_with "runner became unavailable" db.now c else c)
unfolding fail_stuck_commands
stuck_row db id c h =
    get_command-update db (is_stuck db) (fail_with "runner became unavailable" db.now) (λ d. refl)
      id c h

pub mark_orphaned-get_command :
    (db : Db) (cutoff : Time) (id : Uuid)
    → get_command (mark_orphaned_runners db cutoff).1 id ≡ get_command db id
unfolding get_command mark_orphaned_runners
mark_orphaned-get_command db cutoff id = refl

still_away :
    (slug : String) (cutoff now : Time) (r : Runner)
    → is_lost cutoff r ≡ true
    → (has_slug slug (orphan now r) && is_away (orphan now r)) ≡ (has_slug slug r && is_away r)
still_away slug cutoff now r h = ground (arith, eq_iff r.status "offline")

-- A runner that is orphaned was away already.
pub mark_orphaned-runner_away :
    (db : Db) (cutoff : Time) (slug : Option String)
    → runner_away (mark_orphaned_runners db cutoff).1 slug ≡ runner_away db slug
unfolding runner_away mark_orphaned_runners
mark_orphaned-runner_away db cutoff none = refl
mark_orphaned-runner_away db cutoff (some slug) =
    rw
      (affected-update_same (λ r. has_slug slug r && is_away r) (is_lost cutoff) (orphan db.now)
        db.runners (still_away slug cutoff db.now))
      refl

-- A command that is running on a runner which is offline or orphaned.
pub record IsStranded (db : Db) (c : Command) : Type 0 where
  pub running : c.status ≡ "running"
  pub runner_gone :
      (r : Runner) × Memᴰ r db.runners
      × (c.assigned_runner ≡ some r.slug)
      × ((r.status ≡ "offline") ⊎ (r.status ≡ "orphaned"))

away_runner :
    (db : Db) (slug : Option String)
    → runner_away db slug ≡ true
    → (r : Runner) × Memᴰ r db.runners
      × (slug ≡ some r.slug)
      × ((r.status ≡ "offline") ⊎ (r.status ≡ "orphaned"))
unfolding runner_away
away_runner db none h = absurd (ground arith)
away_runner db (some slug) h =
    let (r, m, t) =
      affected-mem (λ r. has_slug slug r && is_away r) db.runners (λ z. ground (arith, z)) in
    (
      r,
      m,
      ap some (sym ((eq_iff r.slug slug).0 (and-true _ (is_away r) t).0)),
      ground (
        arith,
        (and-true (has_slug slug r) _ t).1,
        eq_iff r.status "offline",
        eq_iff r.status "orphaned",
      ),
    )

runner_is_away :
    (db : Db) (slug : String) (r : Runner)
    → Memᴰ r db.runners
    → slug ≡ r.slug
    → (r.status ≡ "offline") ⊎ (r.status ≡ "orphaned")
    → runner_away db (some slug) ≡ true
unfolding runner_away
runner_is_away db slug r m e a = ground (
  arith,
  mem-affected (λ s. has_slug slug s && is_away s) r db.runners m
      (ground
        (arith, a, eq_iff r.slug slug, eq_iff r.status "offline", eq_iff r.status "orphaned")),
)

pub is_stuck_iff : (db : Db) (c : Command) → (is_stuck db c ≡ true) ↔ IsStranded db c
is_stuck_iff db c = (
  (λ h.
      let (s, a) = and-true _ (runner_away db c.assigned_runner) h in
      record {
        running = (eq_iff c.status "running").0 s;
        runner_gone = away_runner db c.assigned_runner a;
      }),
  (λ x.
      let (r, m, e, a) = x.runner_gone in
      rw (e, runner_is_away db r.slug r m refl a)
        (ground (arith, eq_iff c.status "running", x.running))),
)
