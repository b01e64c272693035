-- ===== src/Results.antt =====
-- The errors of server/internal/store/postgres/store.go, and what a call of the store returns.
use jackrabbit.Base.{String}

-- `failed` carries the text that the code wraps another error in.
pub data Error : Type 0 where
  not_found already_exists invalid_input : Error
  failed : String → Error

pub data Result {ℓ} (A : Type ℓ) : Type ℓ where
  ok : A → Result A
  err : Error → Result A
