-- ===== src/Server/Http.antt =====
-- What a handler writes (net/http), and writeError of server/internal/api/handlers/runners.go.
use jackrabbit.Base.{ℕ, String, List}
use jackrabbit.Models.{Runner, Command, Log, Metric}

-- The value that is encoded as JSON.
pub data Body : Type 0 where
  empty : Body
  error : String → Body
  health : String → Body
  runner : Runner → Body
  runners : List Runner → Body
  command : Command → Body
  logs : List Log → Body
  metrics : List Metric → Body

pub record Response : Type 0 where
  pub status : ℕ
  pub body : Body

abbrev pub write_error : ℕ → String → Response
write_error status message = record { status = status; body = error message }

abbrev pub respond : ℕ → Body → Response
respond status body = record { status = status; body = body }
