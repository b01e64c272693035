-- ===== src/Web.antt =====
-- The requests of net/http that the client and the SDK make, and the text of their URLs.
use Prim.Native.String.{◌++◌ as text_append}
use jackrabbit.Base.{String, string_eq, ◌==◌, if◌then◌else◌, List, [], ◌∷◌}

pub record Request {ℓ} (B : Type ℓ) : Type ℓ where
  pub method : String
  pub url : String
  pub headers : List (String × String)
  pub body : B

-- `if token != "" { req.Header.Set("Authorization", "Bearer "+token) }`.
abbrev pub authorization : String → List (String × String)
authorization token =
    if token == "" then [] else ("Authorization", text_append "Bearer " token) ∷ []

-- "%s%s%s" and the like.
abbrev pub joined : List String → String
joined [] = ""
joined (s ∷ ss) = text_append s (joined ss)
