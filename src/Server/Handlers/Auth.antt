-- ===== src/Server/Handlers/Auth.antt =====
-- server/internal/api/handlers/auth.go and health.go.
use Prim.Native.String.{◌++◌ as text_append}
use jackrabbit.Base.{String, string_eq, ◌==◌, if◌then◌else◌, Option, none, some}
use jackrabbit.Server.Http.{Response, respond, empty, health}

-- The response, and the header X-Runner-Slug where it is set. `query_slug` is "" where the query
-- names no runner.
unfoldable pub verify : String → String → String → Response × Option String
verify token auth_header query_slug =
    if auth_header == text_append "Bearer " token
    then (respond 200 empty, if query_slug == "" then none else some query_slug)
    else (respond 401 empty, none)

unfoldable pub get_health : Response
get_health = respond 200 (health "ok")
