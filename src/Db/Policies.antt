-- ===== src/Db/Policies.antt =====
-- The retention policies of server/internal/store/postgres/store.go.
use jackrabbit.Base.{String, string_eq, leb, ◌==◌, Bool, ◌&&◌, Option, none, some, List, map}
use jackrabbit.Models.{LogRetentionPolicy}
use jackrabbit.Results.{Result}
use jackrabbit.Table
use jackrabbit.Db.State.{Db, equals}
use jackrabbit.Db.Runners.{or_not_found}

-- scope = $1 AND ($2 IS NULL OR scope_id = $2).
abbrev governs : String → Option String → LogRetentionPolicy → Bool
governs scope none p = p.scope == scope
governs scope (some id) p = p.scope == scope && equals p.scope_id id

abbrev latest_first : LogRetentionPolicy → LogRetentionPolicy → Bool
latest_first p q = leb q.created_at p.created_at

unfoldable pub get_retention_policy : Db → String → Option String → Result LogRetentionPolicy
get_retention_policy db scope scope_id =
    or_not_found
      (Table.first (Table.sort_by latest_first (Table.select (governs scope scope_id) db.policies)))

-- The columns that GetLogRetentionPolicies reads; the other fields keep Go's zero values.
abbrev read_policy : LogRetentionPolicy → LogRetentionPolicy
read_policy p = record p { id = 0; updated_at = 0 }

-- `by_scope` is PostgreSQL's ORDER BY scope, scope_id, under the collation of the database.
unfoldable pub get_log_retention_policies :
    (LogRetentionPolicy → LogRetentionPolicy → Bool) → Db → List LogRetentionPolicy
get_log_retention_policies by_scope db = map read_policy (Table.sort_by by_scope db.policies)
