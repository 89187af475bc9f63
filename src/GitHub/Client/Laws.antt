-- ===== src/GitHub/Client/Laws.antt =====
-- What the client sends (examples/add-runner.js, modules 6461 and 8426).
use github_runner_autoscaler.Common.Dict.{insert}
use github_runner_autoscaler.Common.{Text, Option, none, some, Result}
use github_runner_autoscaler.GitHub.Auth.{without_prefix, with_authorization_prefix}
use github_runner_autoscaler.GitHub.Endpoint.{Headers, Request}
use github_runner_autoscaler.GitHub.Endpoint.Registration.{registration_request}
use github_runner_autoscaler.GitHub.Requests.{Response, JsonView, authorization_key}
use github_runner_autoscaler.GitHub.Client.{Hooks}

abbrev hooks_or : {Json : Type 0} → Hooks Json → Option (Hooks Json) → Hooks Json
hooks_or d none = d
hooks_or d (some hs) = hs

module _ {Json : Type 0} (parse_json : Text → Result Text Json) (view : JsonView Json)
    (fetch : Request → Result Text Response) where
  -- The request that the call for a registration token sends.
  abbrev pub registration_sent : Text → Headers → Text → Text → Text → Request
  registration_sent base_url headers t o r =
      registration_request base_url
        (insert authorization_key (with_authorization_prefix (without_prefix t)) headers) o r
