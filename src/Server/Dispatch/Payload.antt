-- ===== src/Server/Dispatch/Payload.antt =====
-- The payload of a notification, from NotifyRunner of server/internal/store/postgres/store.go to
-- splitNotificationPayload of server/cmd/server/main.go.
use Prim.Native.Char.{code}
use Prim.Native.String.{◌++◌ as text_append}
use text.Mathlib.TextLemmas.{nil-append, cons-append}
use jackrabbit.Base.{
  String, nat_eq, ◌==◌, ◌≡◌, refl, ap, ◌∙◌, Bool, false, ◌||◌, [], ◌∷◌, arith, Bool-cases, inl, inr,
}
use jackrabbit.Db.Notify.{notification_payload}
use jackrabbit.Server.Dispatch.{prepend, split_notification_payload}

unfoldable pub has_colon : String → Bool
has_colon String.[] = false
has_colon (String.◌∷◌ c s) = code c == b':' || has_colon s

-- The colon that the payload is pasted together with.
colon_first : (id : String) → text_append ":" id ≡ String.◌∷◌ ":" id
colon_first id = cons-append ":" String.[] id ∙ ap (String.◌∷◌ ":") (nil-append id)

split-append :
    (slug id : String)
    → has_colon slug ≡ false
    → split_notification_payload (text_append slug (String.◌∷◌ ":" id)) ≡ slug ∷ id ∷ []
unfolding split_notification_payload has_colon prepend
split-append String.[] id h = rw (nil-append (String.◌∷◌ ":" id)) refl
split-append (String.◌∷◌ c s) id h = elim (Bool-cases (code c == b':')) [
  | inl t ↦ absurd (ground arith)
  | inr f ↦ rw (cons-append c s (String.◌∷◌ ":" id), f, split-append s id (ground arith)) refl
]

-- A slug without a colon comes back out of the payload, with the identifier behind it.
pub split_notification_payload-notification_payload :
    (slug id : String)
    → has_colon slug ≡ false
    → split_notification_payload (notification_payload slug id) ≡ slug ∷ id ∷ []
unfolding notification_payload
split_notification_payload-notification_payload slug id h =
    rw (colon_first id) (split-append slug id h)
