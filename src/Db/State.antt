-- ===== src/Db/State.antt =====
-- The tables, and the tests that the WHERE clauses share.
use Prim.Native.Char.{code}
use jackrabbit.Base.{
  ◌||◌, not, true, Eq, ℕ, String, ◌==◌, nat_eq, string_eq, ltb, Bool, false, Option, none, some,
  List,
}
use jackrabbit.Table
use jackrabbit.Table.Keys.{Distinct}
use jackrabbit.Models.{Time, Uuid, Runner, Command, Log, Metric, MetricRollup, LogRetentionPolicy}

pub record Db : Type 0 where
  pub runners : List Runner
  pub commands : List Command
  pub logs : List Log
  pub metrics : List Metric
  pub metric_rollups : List MetricRollup
  pub policies : List LogRetentionPolicy
  -- The BIGSERIAL sequences.
  pub next_log_id : ℕ
  pub next_metric_id : ℕ
  pub next_rollup_id : ℕ
  -- SQL's now().
  pub now : Time
  -- The commands whose rows other transactions hold locked.
  pub locked : List Uuid
  -- The payloads sent on the channel runner_notifications, oldest first.
  pub notifications : List String

-- A comparison with NULL is not true.
abbrev pub before : Option Time → Time → Bool
before none t = false
before (some s) t = ltb s t

abbrev pub after : Option Time → Time → Bool
after none t = false
after (some s) t = ltb t s

abbrev pub is_null {ℓ} : {A : Type ℓ} → Option A → Bool
is_null none = Bool.true
is_null (some _) = false

-- COALESCE.
abbrev pub coalesce {ℓ} : {A : Type ℓ} → Option A → Option A → Option A
coalesce none old = old
coalesce (some a) old = some a

abbrev pub has_slug : String → Runner → Bool
has_slug slug r = r.slug == slug

abbrev pub has_id : Uuid → Command → Bool
has_id id c = c.id == id

-- x = y, where both may be NULL.
abbrev pub both_equal {ℓ} : {A : Type ℓ} ⦃e : Eq A⦄ → Option A → Option A → Bool
both_equal none y = false
both_equal (some a) none = false
both_equal (some a) (some b) = a == b

-- x IS NOT DISTINCT FROM y: NULL is as NULL, as GROUP BY has it.
abbrev pub alike {ℓ} : {A : Type ℓ} ⦃e : Eq A⦄ → Option A → Option A → Bool
alike none none = Bool.true
alike none (some b) = false
alike (some a) none = false
alike (some a) (some b) = a == b

-- column = $1, where the column may be NULL.
abbrev pub equals {ℓ} : {A : Type ℓ} ⦃e : Eq A⦄ → Option A → A → Bool
equals none a = false
equals (some b) a = b == a

-- runner_slug REFERENCES runners(slug), command_id REFERENCES commands(id).
abbrev pub runner_exists : Db → Option String → Bool
runner_exists db none = Bool.true
runner_exists db (some slug) = ltb 0 (Table.affected (has_slug slug) db.runners)

abbrev pub command_exists : Db → Option Uuid → Bool
command_exists db none = Bool.true
command_exists db (some id) = ltb 0 (Table.affected (has_id id) db.commands)

abbrev pub slug_of : Runner → String
slug_of r = r.slug

abbrev pub id_of : Command → Uuid
id_of c = c.id

-- The primary keys of the tables of runners and commands.
pub record IsValid (db : Db) : Type 0 where
  pub slugs_distinct : Distinct slug_of db.runners
  pub ids_distinct : Distinct id_of db.commands

-- PostgreSQL refuses a NUL character in a TEXT column.
unfoldable pub has_nul : String → Bool
has_nul String.[] = false
has_nul (String.◌∷◌ c s) = code c == 0 || has_nul s

abbrev pub is_text : Option String → Bool
is_text none = true
is_text (some s) = not (has_nul s)
