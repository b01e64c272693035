-- ===== src/Db/Notify.antt =====
-- NotifyRunner of server/internal/store/postgres/store.go, and the payload that it puts on the
-- channel runner_notifications.
use Prim.Native.Char.{code}
use Prim.Native.String.{◌++◌ as text_append, len}
use jackrabbit.Base.{
  ℕ, List, String, nat_eq, ltb, ◌==◌, if◌then◌else◌, Bool, false, ◌||◌, ◌&&◌, not, Option, [], ◌∷◌,
  ◌++◌,
}
use jackrabbit.Models.{Uuid, Log, LogRetentionPolicy}
use jackrabbit.Results.{Result, ok}
use jackrabbit.Db.State.{Db}
use jackrabbit.Db.Rollups.{Aggregates}

-- What the store uses of pgtype and of PostgreSQL that is not in the repository: the text of a UUID
-- (Scan, and MarshalJSON without its quotes), the collation of ORDER BY, the
-- order in which a query for a page of logs comes upon the rows, what it computes of metrics,
-- and the effect of a statement given as text.
pub record Engine : Type 0 where
  pub parse_uuid : String → Option Uuid
  pub print_uuid : Uuid → String
  pub by_scope : LogRetentionPolicy → LogRetentionPolicy → Bool
  pub scan_logs : ℕ → ℕ → List Log → List Log
  pub aggregates : Aggregates
  pub exec_text : String → Db → Result (Unit {0}) × Db

-- "%s:%s" of a slug and the text of an identifier.
unfoldable pub notification_payload : String → String → String
notification_payload slug id = text_append slug (text_append ":" id)

-- A quote ends the literal that the payload is pasted into.
unfoldable pub has_quote : String → Bool
has_quote String.[] = false
has_quote (String.◌∷◌ c s) = code c == b'\'' || has_quote s

notify_query : String → String
notify_query payload =
    text_append "SELECT pg_notify('runner_notifications', '" (text_append payload "')")

-- Only a payload with no quote, and of fewer than PostgreSQL's 8000 bytes, is known to be sent.
abbrev pub is_plain : String → Bool
is_plain payload = not (has_quote payload) && ltb (len payload) 8000

unfoldable pub send_payload : Engine → Db → String → Result (Unit {0}) × Db
unfolding notify_query
send_payload e db payload =
    if is_plain payload
    then (ok tt, record db { notifications = db.notifications ++ payload ∷ [] })
    else e.exec_text (notify_query payload) db

unfoldable pub notify_runner : Engine → Db → String → Uuid → Result (Unit {0}) × Db
unfolding send_payload notification_payload
notify_runner e db slug id = send_payload e db (notification_payload slug (e.print_uuid id))
