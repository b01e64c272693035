-- ===== src/Client/Config/Loading.antt =====
-- What client/internal/config/config.go accepts.
use text.Mathlib.TextEquality.{eq_iff}
use jackrabbit.Base.{
  ℤ, String, string_eq, ltb_ℤ, ◌==◌, ◌≡◌, ◌≢◌, ◌⊎◌, refl, ap, sym, ◌∙◌, true, false, Bool-cases,
  inl, inr, arith,
}
use jackrabbit.Results.{ok, err, Error, failed}
use jackrabbit.Client.Config.{
  Config, get_env_or_default, get_env_as_int_or_default, read_config, named, validate, load,
}

-- What the rest of the program relies on.
pub record IsValid (c : Config) : Type 0 where
  pub has_url : c.server_url ≢ ""
  pub has_slug : c.runner_slug ≢ ""
  pub has_name : c.runner_name ≢ ""
  pub has_room : ltb_ℤ c.max_concurrency (ℤ.pos 1) ≡ false

not_empty : (s : String) → (s == "") ≡ false → s ≢ ""
not_empty s f e = absurd (ground (arith, (eq_iff s "").1 e))

has_name_lem : (c : Config) → c.runner_slug ≢ "" → (named c).runner_name ≢ ""
has_name_lem c slug = elim (Bool-cases (c.runner_name == "")) [
  | inl t ↦ rw t slug
  | inr f ↦ rw f (not_empty c.runner_name f)
]

module _ (c : Config) (url : c.server_url ≢ "") where
  url_false : (c.server_url == "") ≡ false
  url_false = elim (Bool-cases (c.server_url == "")) [
    | inl t ↦ absurd (url ((eq_iff c.server_url "").0 t))
    | inr f ↦ f
  ]

  refuses :
      (c.runner_slug ≡ "") ⊎ (ltb_ℤ c.max_concurrency (ℤ.pos 1) ≡ true)
      → (e : Error) × (validate c ≡ err e)
  unfolding validate
  refuses (inl none_given) = (
    failed "CLIENT_RUNNER_SLUG is required",
    rw (url_false, (eq_iff c.runner_slug "").1 none_given) refl,
  )
  refuses (inr low) = elim (Bool-cases (c.runner_slug == "")) [
    | inl t ↦ (failed "CLIENT_RUNNER_SLUG is required", rw (url_false, t) refl)
    | inr f ↦ (failed "CLIENT_MAX_CONCURRENCY must be at least 1", rw (url_false, f, low) refl)
  ]

  accepts :
      (c.runner_slug ≢ "")
      → ltb_ℤ c.max_concurrency (ℤ.pos 1) ≡ false
      → (validate c ≡ ok (named c)) × IsValid (named c)
  unfolding validate
  accepts slug room =
      let f : (c.runner_slug == "") ≡ false = elim (Bool-cases (c.runner_slug == "")) [
        | inl t ↦ absurd (slug ((eq_iff c.runner_slug "").0 t))
        | inr f ↦ f
      ] in
      (
        rw (url_false, f, room) refl,
        record { has_url = url; has_slug = slug; has_name = has_name_lem c slug; has_room = room },
      )

url_given : (env : String → String) → (read_config env).server_url ≢ ""
unfolding read_config get_env_or_default
url_given env = elim (Bool-cases (env "CLIENT_SERVER_URL" == "")) [
  | inl t ↦ rw t (not_empty "http://localhost:80" refl)
  | inr f ↦ rw f (not_empty (env "CLIENT_SERVER_URL") f)
]

slug_given : (env : String → String) → (read_config env).runner_slug ≡ env "CLIENT_RUNNER_SLUG"
unfolding read_config
slug_given env = refl

room_given :
    (env : String → String)
    → (read_config env).max_concurrency
      ≡ get_env_as_int_or_default env "CLIENT_MAX_CONCURRENCY" (ℤ.pos 4)
unfolding read_config
room_given env = refl

-- Load fails if the environment names no slug, or a concurrency below one.
pub load_refuses :
    (env : String → String)
    → (env "CLIENT_RUNNER_SLUG" ≡ "")
      ⊎ (ltb_ℤ (get_env_as_int_or_default env "CLIENT_MAX_CONCURRENCY" (ℤ.pos 4)) (ℤ.pos 1) ≡ true)
    → (e : Error) × (load env ≡ err e)
unfolding load
load_refuses env (inl h) = refuses (read_config env) (url_given env) (inl (slug_given env ∙ h))
load_refuses env (inr h) =
    refuses (read_config env) (url_given env)
      (inr (ap (λ m. ltb_ℤ m (ℤ.pos 1)) (room_given env) ∙ h))

-- Load succeeds if the environment names a slug and no concurrency below one; and the configuration
-- has that slug and that concurrency, a server, and a name.
pub load_accepts :
    (env : String → String)
    → (env "CLIENT_RUNNER_SLUG" ≢ "")
    → ltb_ℤ (get_env_as_int_or_default env "CLIENT_MAX_CONCURRENCY" (ℤ.pos 4)) (ℤ.pos 1) ≡ false
    → (cfg : Config) × (load env ≡ ok cfg)
      × IsValid cfg
      × (cfg.runner_slug ≡ env "CLIENT_RUNNER_SLUG")
      × (cfg.max_concurrency ≡ get_env_as_int_or_default env "CLIENT_MAX_CONCURRENCY" (ℤ.pos 4))
unfolding load
load_accepts env slug room =
    let (loaded, valid) =
      accepts (read_config env) (url_given env) (λ e. slug (sym (slug_given env) ∙ e))
        (ap (λ m. ltb_ℤ m (ℤ.pos 1)) (room_given env) ∙ room) in
    (named (read_config env), loaded, valid, slug_given env, room_given env)
