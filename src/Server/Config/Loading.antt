-- ===== src/Server/Config/Loading.antt =====
-- What server/internal/config/config.go accepts.
use jackrabbit.Base.{◌≡◌, refl, String, string_eq, ◌==◌, false, Bool-cases, inl, inr}
use jackrabbit.Results.{ok}
use jackrabbit.Server.Config.{get_env_or_default, read_config, validate, load}

filled :
    (env : String → String) (key default_value : String)
    → (default_value == "") ≡ false
    → (get_env_or_default env key default_value == "") ≡ false
unfolding get_env_or_default
filled env key default_value h = elim (Bool-cases (env key == "")) [
  | inl t ↦ rw t h
  | inr f ↦ rw f f
]

-- No environment makes Load fail: the values that Validate asks for all have defaults.
pub load_total : (env : String → String) → load env ≡ ok (read_config env)
unfolding load validate read_config
load_total env =
    rw
      (
        filled env "POSTGRES_HOST" "postgres" refl,
        filled env "POSTGRES_DB" "runnerdb" refl,
        filled env "POSTGRES_USER" "runner" refl,
        filled env "POSTGRES_PASSWORD" "secret" refl,
      )
      refl
