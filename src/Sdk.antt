-- ===== src/Sdk.antt =====
-- sdk/go/client.go: the client, doRequest and its errors.
pub mod Requests
pub mod Errors
pub mod Streams
pub mod Logs
use Prim.Native.String.{◌++◌ as text_append}
use jackrabbit.Base.{
  ℕ, ℤ, String, nat_eq, string_eq, leb, ◌==◌, if◌then◌else◌, Bool, true, false, not, ◌&&◌, Option,
  none, some, List, [], ◌∷◌, ◌++◌,
}
use jackrabbit.Models.{Time, Payload, PayloadValue, text, other}
use jackrabbit.Dict
use jackrabbit.Web.{Request, authorization}

pub record Client : Type 0 where
  pub base_url : String
  pub token : String

-- strings.TrimSuffix(baseURL, "/").
unfoldable pub trim_slash : String → String
trim_slash String.[] = String.[]
trim_slash (String.◌∷◌ c String.[]) =
    if String.◌∷◌ c String.[] == "/" then String.[] else String.◌∷◌ c String.[]
trim_slash (String.◌∷◌ c (String.◌∷◌ d s)) = String.◌∷◌ c (trim_slash (String.◌∷◌ d s))

abbrev pub with_token : String → Client → Client
with_token token c = record c { token = token }

apply_options : List (Client → Client) → Client → Client
apply_options [] c = c
apply_options (opt ∷ opts) c = apply_options opts (opt c)

unfoldable pub new : String → List (Client → Client) → Client
unfolding trim_slash apply_options
new base_url opts = apply_options opts (record { base_url = trim_slash base_url; token = "" })

-- The values of a request's JSON object.
pub data Value : Type 0 where
  string : String → Value
  strings : List String → Value
  int : ℤ → Value
  bool : Bool → Value
  moment : Option Time → Value
  object : Payload → Value
  objects : List Payload → Value

abbrev pub Fields : Type 0
Fields = List (String × Value)

pub record Response : Type 0 where
  pub status : ℕ
  pub body : String

-- What encoding/json and the rest of net/http do: the text of an object, and of a text the object or
-- the list of objects that it spells; whether a request can be made for a method and a URL; and the
-- answer to a request.
pub record Network : Type 0 where
  pub marshal : Fields → Option String
  pub as_object : String → Option Payload
  pub as_objects : String → Option (List Payload)
  pub can_request : String → String → Bool
  pub send : Request (Option String) → Option Response

-- ErrNotFound, ErrConflict, and ErrServer alone or wrapped with a message; the status of any other
-- refusal; and the errors of the calls that doRequest makes.
pub data Error : Type 0 where
  not_found conflict : Error
  server : Option String → Error
  request_failed : ℕ → Error
  not_marshalled not_requested not_answered not_decoded : Error

-- A result that is not decoded is nil.
pub data Outcome {ℓ} (R : Type ℓ) : Type ℓ where
  done : Option R → Outcome R
  failed : Error → Outcome R

abbrev pub message_of : Option PayloadValue → Option String
message_of (some (text s)) = some s
message_of _ = none

-- The error of a status of 400 and above.
abbrev pub refusal : ℕ → Option Payload → Error
refusal status none = request_failed status
refusal status (some response) =
    if status == 404
    then not_found
    else if status == 409
    then conflict
    else server (message_of (Dict.lookup "error" response))

abbrev pub decoded {ℓ} : {R : Type ℓ} → Option R → Outcome R
decoded none = failed not_decoded
decoded (some r) = done (some r)

-- `result` is nil where the caller wants nothing of the body.
abbrev pub read_result {ℓ} : {R : Type ℓ} → Option (String → Option R) → Response → Outcome R
read_result none response = done none
read_result (some decode) response =
    if response.status == 204 then done none else decoded (decode response.body)

abbrev pub answered {ℓ} :
    {R : Type ℓ} → Network → Option (String → Option R) → Option Response → Outcome R
answered net result none = failed not_answered
answered net result (some response) =
    if leb 400 response.status
    then failed (refusal response.status (net.as_object response.body))
    else read_result result response

abbrev pub content_type : Option String → List (String × String)
content_type none = []
content_type (some body) = ("Content-Type", "application/json") ∷ []

abbrev pub request : Client → String → String → Option String → Request (Option String)
request c method path body = record {
  method = method;
  url = text_append c.base_url path;
  headers = content_type body ++ authorization c.token;
  body = body;
}

-- doRequest once its body is text.
unfoldable pub do_text {ℓ} :
    {R : Type ℓ}
    → Network
    → Client
    → String
    → String
    → Option String
    → Option (String → Option R)
    → Outcome R
do_text net c method path body result =
    if net.can_request method (text_append c.base_url path)
    then answered net result (net.send (request c method path body))
    else failed not_requested

do_marshalled {ℓ} :
    {R : Type ℓ}
    → Network
    → Client
    → String
    → String
    → Option String
    → Option (String → Option R)
    → Outcome R
unfolding do_text
do_marshalled net c method path none result = failed not_marshalled
do_marshalled net c method path (some body) result = do_text net c method path (some body) result

unfoldable pub do_request {ℓ} :
    {R : Type ℓ}
    → Network
    → Client
    → String
    → String
    → Option Fields
    → Option (String → Option R)
    → Outcome R
unfolding do_marshalled do_text
do_request net c method path none result = do_text net c method path none result
do_request net c method path (some fields) result =
    do_marshalled net c method path (net.marshal fields) result
