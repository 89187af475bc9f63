-- ===== src/GitHub/Client.antt =====
-- The client that githubRegistration.ts makes (examples/add-runner.js, modules 6461, @octokit/core,
-- 8426, 3986, 7823, @octokit/plugin-request-log, and 1563, @octokit/rest): a request goes through the
-- hooks of the token and of the log. The state is the
-- requests that were sent. Merging options that are merged already over the same defaults again
-- leaves them as they are, and is left out.
pub mod Laws
use github_runner_autoscaler.Common.Dict.{insert}
use github_runner_autoscaler.Common.{
  ℕ, Text, codes, List, [], ◌∷◌, ◌++◌, Option, none, some, Result, ok, err,
}
use github_runner_autoscaler.GitHub.Hooks.{
  Promise, Method, Original, wrap_hook, Registered, Registry, add_hook, register,
}
use github_runner_autoscaler.GitHub.Auth.{create_token_auth, with_authorization_prefix}
use github_runner_autoscaler.GitHub.Endpoint.{Options, Request, parse_options}
use github_runner_autoscaler.GitHub.Requests.{
  Response, JsonView, HttpError, Answer, authorization_key, fetch_wrapper,
}

-- Why a call is rejected: a URI function threw, or the request failed.
pub data CallError (Json : Type 0) : Type 0 where
  uri_error : CallError Json
  http_error : HttpError Json → CallError Json

abbrev pub Sent : Type 0
Sent = List Request

abbrev pub Call : Type 0 → Type 0
Call Json = Method Options (Answer Json) (CallError Json) Sent

abbrev pub Hooks : Type 0 → Type 0
Hooks Json = Registry Options (Answer Json) (CallError Json) Sent

abbrev pub request_hook : Text
request_hook = codes "request"

-- The options with the header of a token.
unfoldable pub authorise : Text → Options → Options
authorise token o = record o {
  headers = insert authorization_key (with_authorization_prefix token) o.headers;
}

module _ {Json : Type 0} where
  -- `hook` of the token: the request goes on with the header.
  unfoldable pub token_hook : Text → Call Json → Call Json
  token_hook token request o = request (authorise token o)

  -- The hook of the plug-in `requestLog`: it parses the options for the path that it logs, which may
  -- throw, and hands on what the request comes to. `log.debug` and `log.info` do nothing by default.
  unfoldable pub log_hook : Call Json → Call Json
  log_hook request o sent = elim (parse_options o) [
    | none ↦ (err uri_error, sent)
    | some path ↦ request o sent
  ]

  abbrev pub with_log : Hooks Json → Hooks Json
  with_log hs = add_hook hs request_hook (record { identity = 1; orig = wrap_hook log_hook })

  abbrev pub with_token : Option Text → Option (Hooks Json)
  with_token none = none
  with_token (some token) = some (
      with_log
        (add_hook [] request_hook (record { identity = 0; orig = wrap_hook (token_hook token) })))

  -- The hooks of `new Octokit({ auth })` of @octokit/rest without another strategy, of whose plug-ins
  -- `requestLog` alone has one; nothing where the token is refused.
  unfoldable pub hooks_for : Option Text → Option (Hooks Json)
  hooks_for none = some (with_log [])
  hooks_for (some []) = some (with_log [])
  hooks_for (some (c ∷ s)) = with_token (create_token_auth (c ∷ s))

module _ {Json : Type 0} (parse_json : Text → Result Text Json) (view : JsonView Json)
    (fetch : Request → Result Text Response) where
  abbrev pub as_call : Result (HttpError Json) (Answer Json) → Result (CallError Json) (Answer Json)
  as_call (ok a) = ok a
  as_call (err e) = err (http_error e)

  abbrev pub send_request : Option Request → Promise (CallError Json) Sent (Answer Json)
  send_request none sent = (err uri_error, sent)
  send_request (some r) sent = (as_call (fetch_wrapper parse_json view fetch r), sent ++ (r ∷ []))

  -- `fetchWrapper(endpoint.parse(options))`
  unfoldable pub send : Call Json
  send o = send_request (parse_options o)

  -- A call of the client: the hooks around the request.
  unfoldable pub call : Hooks Json → Call Json
  call hooks o = register hooks request_hook send o
