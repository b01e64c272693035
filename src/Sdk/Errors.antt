-- ===== src/Sdk/Errors.antt =====
-- The errors of sdk/go/client.go, against the handlers of server/internal/api/handlers/commands.go.
use jackrabbit.Base.{◌≡◌, refl, ◌∙◌, String, string_eq, nat_eq, true, Option, none, some, [], ◌∷◌}
use jackrabbit.Models.{Uuid, Payload, Command, text}
use jackrabbit.Results as Store_results
use jackrabbit.Results.{Result, ok, err}
use jackrabbit.Dict
use jackrabbit.Web.{Request}
use jackrabbit.Server.Store.{Store}
use jackrabbit.Server.Http
use jackrabbit.Server.Http.{Body}
use jackrabbit.Server.Handlers.Commands
use jackrabbit.Sdk.{
  Client, Network, Response, Outcome, done, failed, server, do_request, do_text, request, answered,
  not_found, Error,
}
use jackrabbit.Sdk.Requests.{get_command, kill_command, command_path}

-- A response on the wire.
abbrev pub served : (Body → String) → Http.Response → Response
served encode r = record { status = r.status; body = encode r.body }

-- The network lets the client make a request, and answers it by a response of the server.
pub record Answers (net : Network) (encode : Body → String) (r : Request (Option String))
    (response : Http.Response) : Type 0 where
  pub can_request : net.can_request r.method r.url ≡ true
  pub sent : net.send r ≡ some (served encode response)

-- The error object that writeError writes is read as such.
abbrev pub ReadsErrors : Network → (Body → String) → Type 0
ReadsErrors net encode =
    (message : String)
    → net.as_object (encode (Body.error message)) ≡ some (("error", text message) ∷ [])

-- What the SDK tells of an error of the store that a handler answers by `store_error`.
abbrev pub told : Store_results.Error → String → Error
told Store_results.not_found broken = not_found
told _ broken = server (some broken)

-- The outcome of GetCommand, by whether the identifier is one, and by what the store has.
abbrev pub got : (Command → Payload) → Option (Result Command) → Outcome Payload
got fields none = failed (server (some "invalid command id"))
got fields (some (ok c)) = done (some (fields c))
got fields (some (err e)) = failed (told e "failed to retrieve command")

abbrev pub killed : Option (Result (Unit {0})) → Outcome Payload
killed none = failed (server (some "invalid command id"))
killed (some (ok _)) = done none
killed (some (err e)) = failed (told e "failed to kill command")

-- What the store is asked, if the identifier is one.
abbrev pub asked {ℓ} : {A : Type ℓ} → Option Uuid → (Uuid → Result A) → Option (Result A)
asked none ask = none
asked (some id) ask = some (ask id)

-- A request that is answered.
do_text-answered :
    {R : Type 0} (net : Network) (encode : Body → String) (c : Client) (method path : String)
    (result : Option (String → Option R)) (response : Http.Response)
    → Answers net encode (request c method path none) response
    → do_text net c method path none result ≡ answered net result (some (served encode response))
unfolding do_text
do_text-answered net encode c method path result response a = rw (a.can_request, a.sent) refl

module _ {S : Type 0} (store : Store S) (net : Network) (encode : Body → String)
    (reads : ReadsErrors net encode) where
  got_answer :
      (fields : Command → Payload) (r : Result Command × S)
      → ((cmd : Command) → net.as_object (encode (Body.command cmd)) ≡ some (fields cmd))
      → answered net (some net.as_object) (some (served encode (Commands.got store r).0))
        ≡ got fields (some r.0)
  unfolding Commands.got Dict.lookup
  got_answer fields (ok cmd, s) back = rw (back cmd) refl
  got_answer fields (err Store_results.not_found, s) back = rw (reads "command not found") refl
  got_answer fields (err Store_results.already_exists, s) back =
      rw (reads "failed to retrieve command") refl
  got_answer fields (err Store_results.invalid_input, s) back =
      rw (reads "failed to retrieve command") refl
  got_answer fields (err (Store_results.failed what), s) back =
      rw (reads "failed to retrieve command") refl

  killed_answer :
      (r : Result (Unit {0}) × S)
      → answered {R = Payload} net none (some (served encode (Commands.killed store r).0))
        ≡ killed (some r.0)
  unfolding Commands.killed Dict.lookup
  killed_answer (ok u, s) = refl
  killed_answer (err Store_results.not_found, s) =
      rw (reads "command not found or not running") refl
  killed_answer (err Store_results.already_exists, s) = rw (reads "failed to kill command") refl
  killed_answer (err Store_results.invalid_input, s) = rw (reads "failed to kill command") refl
  killed_answer (err (Store_results.failed what), s) = rw (reads "failed to kill command") refl

  get_answer :
      (fields : Command → Payload) (s : S) (o : Option Uuid)
      → ((cmd : Command) → net.as_object (encode (Body.command cmd)) ≡ some (fields cmd))
      → answered net (some net.as_object) (some (served encode (Commands.get_scanned store s o).0))
        ≡ got fields (asked o (λ i. (store.get_command s i).0))
  unfolding Commands.get_scanned Dict.lookup
  get_answer fields s none back = rw (reads "invalid command id") refl
  get_answer fields s (some i) back = got_answer fields (store.get_command s i) back

  kill_answer :
      (s : S) (o : Option Uuid)
      → answered {R = Payload} net none (some (served encode (Commands.kill_scanned store s o).0))
        ≡ killed (asked o (λ i. (store.set_command_kill_requested s i).0))
  unfolding Commands.kill_scanned Dict.lookup
  kill_answer s none = rw (reads "invalid command id") refl
  kill_answer s (some i) = killed_answer (store.set_command_kill_requested s i)

-- GetCommand of the SDK, answered by the server's handler over any store: the command's object if
-- the store has the command, ErrNotFound if it has none, and ErrServer with the handler's message for
-- any other error of the store and for a text that is no identifier.
pub get_command-get :
    {S : Type 0} (store : Store S) (parse_uuid : String → Option Uuid) (s : S) (net : Network)
    (encode : Body → String) (fields : Command → Payload) (c : Client) (id : String)
    → Answers net encode
        (request c "GET" (command_path id "") none)
        (Commands.get store parse_uuid s id).0
    → ReadsErrors net encode
    → ((cmd : Command) → net.as_object (encode (Body.command cmd)) ≡ some (fields cmd))
    → get_command net c id ≡ got fields (asked (parse_uuid id) (λ i. (store.get_command s i).0))
unfolding get_command do_request Commands.get
get_command-get store parse_uuid s net encode fields c id a reads back =
    do_text-answered net encode c "GET" (command_path id "") (some net.as_object) _ a
    ∙ get_answer store net encode reads fields s (parse_uuid id) back

-- KillCommand of the SDK, answered by the server's handler over any store: no error exactly if the
-- store took the request, ErrNotFound if it has no such command that can be killed, and ErrServer with
-- the handler's message otherwise.
pub kill_command-kill :
    {S : Type 0} (store : Store S) (parse_uuid : String → Option Uuid) (s : S) (net : Network)
    (encode : Body → String) (c : Client) (id : String)
    → Answers net encode
        (request c "POST" (command_path id "/kill") none)
        (Commands.kill store parse_uuid s id).0
    → ReadsErrors net encode
    → kill_command net c id
      ≡ killed (asked (parse_uuid id) (λ i. (store.set_command_kill_requested s i).0))
unfolding kill_command do_request Commands.kill
kill_command-kill store parse_uuid s net encode c id a reads =
    do_text-answered net encode c "POST" (command_path id "/kill") none _ a
    ∙ kill_answer store net encode reads s (parse_uuid id)
