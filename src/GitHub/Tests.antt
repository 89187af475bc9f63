-- ===== src/GitHub/Tests.antt =====
-- Runs of the requests to GitHub (examples/add-runner.js, modules 2995, 3108, 3986, 6752 and 8426).
use github_runner_autoscaler.Common.Dict.{lookup}
use github_runner_autoscaler.Common.{
  ◌≡◌, refl, Text, codes, [], ◌∷◌, ◌++◌, map, none, some, Result, ok, err,
}
use github_runner_autoscaler.GitHub.Endpoint.{Request, no_body}
use github_runner_autoscaler.GitHub.Endpoint.Registration.{registration_url}
use github_runner_autoscaler.GitHub.Requests.{
  Response, JsonView, HttpError, authorization_key, request_error,
}
use github_runner_autoscaler.GitHub.Client.{Hooks, hooks_for}
use github_runner_autoscaler.GitHub.Routes.Actions.{actions}

abbrev owner : Text
owner = codes "a/b"

abbrev repo : Text
repo = codes "demo"

abbrev origin : Text
origin = codes "https://api.github.com"

-- The route of the registration token stands in the table.
registration_route :
    map
      (λ e. e.route)
      (elim (lookup (codes "createRegistrationTokenForRepo") actions) [
        | none ↦ []
        | some e ↦ e ∷ []
      ])
    ≡ (codes "POST " ++ registration_url) ∷ []
unfolding lookup actions
registration_route = refl

abbrev request : Request
request = record {
  method = codes "POST";
  url = origin;
  headers = (authorization_key, codes "token abc") ∷ [];
  body = no_body;
}

abbrev as_json : Text → Result Text Text
as_json t = ok t

abbrev no_errors : JsonView Text
no_errors = record { properties = λ j. []; shown = λ j. some j; errors = λ j. none }

abbrev offline : Request → Result Text Response
offline r = err (codes "offline")

abbrev empty_response : Response
empty_response = record {
  url = origin;
  status = 204;
  status_text = [];
  headers = [];
  content = ok [];
}

abbrev online : Request → Result Text Response
online r = ok empty_response

abbrev offline_error : HttpError Text
offline_error = request_error request [] (codes "offline") 500

-- The hooks of a client with the token `abc`.
abbrev client_hooks : Hooks Text
client_hooks = elim (hooks_for (some (codes "abc"))) [ none ↦ [] | some hs ↦ hs ]
