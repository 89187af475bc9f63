-- ===== src/AddRunner/Resources.antt =====
-- add-runner/src/resources.ts: the Kubernetes documents that the command writes. `runner.ts`
-- declares what a registered runner leaves behind, `RunnerCreds`.
pub mod Names
pub mod Selector
pub mod Documents
use github_runner_autoscaler.Common.{
  ℕ, zero, suc, Text, codes, is_digit, is_lower, is_upper, Bool, ◌||◌, List, [], ◌∷◌, ◌++◌, map,
  Option, none, some, if◌then◌else◌, ◌==◌, split, join,
}
use github_runner_autoscaler.AddRunner.Config.{Config}
use github_runner_autoscaler.AddRunner.Encoding.{btoa, decimal}

pub record RunnerCreds : Type 0 where
  pub credentials_rsaparams : Text
  pub credentials : Text
  pub runner : Text
  pub private_key : Text
  pub public_key : Text

-- `entries` is the source's `data`, in the order of its keys.
pub record Secret : Type 0 where
  pub api_version : Text
  pub kind : Text
  pub name : Text
  pub namespace : Text
  pub entries : List (Text × Text)
  pub secret_type : Text

-- `runner` holds the labels of the source's `Runner`, if that is set.
pub record ScaledActionRunnerSpec : Type 0 where
  pub github_token_secret : Text
  pub max_runners : ℕ
  pub owner : Text
  pub repo : Text
  pub runner : Option Text
  pub runner_secrets : List Text
  pub selector : Option Text

pub record ScaledActionRunner : Type 0 where
  pub kind : Text
  pub api_version : Text
  pub name : Text
  pub namespace : Text
  pub spec : ScaledActionRunnerSpec

pub generate_secret : Text → Text → List (Text × Text) → Secret
generate_secret name namespace entries = record {
  api_version = codes "v1";
  kind = codes "Secret";
  name = name;
  namespace = namespace;
  entries = entries;
  secret_type = codes "Opaque";
}

pub generate_runner_secret : Text → Text → RunnerCreds → Secret
generate_runner_secret name namespace creds = generate_secret name namespace (
    (codes ".credentials_rsaparams", btoa creds.credentials_rsaparams)
    ∷ (codes ".credentials", btoa creds.credentials)
    ∷ (codes ".runner", btoa creds.runner)
    ∷ (codes "private.pem", btoa creds.private_key)
    ∷ (codes "public.pem", btoa creds.public_key)
    ∷ [])

-- `${config.name}-${i}`
unfoldable pub runner_name : Text → ℕ → Text
runner_name name i = name ++ (b'-' ∷ decimal i)

-- The loop that pushes the runners' names: `i` counts up, and so many rounds are left.
unfoldable pub runner_names : Text → ℕ → ℕ → List Text
runner_names name i zero = []
runner_names name i (suc rounds) = runner_name name i ∷ runner_names name (suc i) rounds

-- `/[^a-z0-9-]/gi` replaced by `_`
abbrev pub clean_unit : ℕ → ℕ
clean_unit c = if is_lower c || is_upper c || is_digit c || c == b'-' then c else b'_'

unfoldable pub selector_key : Text → Text
selector_key label = codes "wf_runs_on_" ++ map clean_unit label

pub label_selector : Text → Text
label_selector labels = join (b',' ∷ []) (map selector_key (split b',' labels))

-- Labels that are there and not empty count.
abbrev pub used_labels : Option Text → Option Text
used_labels (some (c ∷ s)) = some (c ∷ s)
used_labels _ = none

abbrev map_option : (Text → Text) → Option Text → Option Text
map_option f none = none
map_option f (some s) = some (f s)

unfoldable pub generate_scaled_action_runner : Config → ScaledActionRunner
generate_scaled_action_runner config = record {
  kind = codes "ScaledActionRunner";
  api_version = codes "runner.devjoes.com/v1alpha1";
  name = config.name;
  namespace = config.stateful_set_ns;
  spec = record {
    github_token_secret = config.name;
    max_runners = config.max_runners;
    owner = config.owner;
    repo = config.repo;
    runner = used_labels config.labels;
    runner_secrets = runner_names config.name 0 config.max_runners;
    selector = map_option label_selector (used_labels config.labels);
  };
}

-- `creds.map((c, i) => …)`, from the index `i` on.
pub runner_secrets_from : Config → ℕ → List RunnerCreds → List Secret
runner_secrets_from config i [] = []
runner_secrets_from config i (c ∷ creds) =
    generate_runner_secret (runner_name config.name i) config.stateful_set_ns c
    ∷ runner_secrets_from config (suc i) creds

abbrev pub pat_namespace : Option Text → Text → Text
pat_namespace none ns = ns
pat_namespace (some []) ns = ns
pat_namespace (some (c ∷ s)) ns = c ∷ s

pub read_pat_secret : Config → Secret
read_pat_secret config =
    generate_secret config.name (pat_namespace config.github_pat_ns config.stateful_set_ns)
      ((codes "token", btoa config.read_pat) ∷ [])

-- What is written out as YAML.
pub data Document : Type 0 where
  scaled_action_runner : ScaledActionRunner → Document
  secret : Secret → Document

pub documents : Config → List RunnerCreds → List Document
documents config creds =
    scaled_action_runner (generate_scaled_action_runner config)
    ∷ secret (read_pat_secret config)
    ∷ map secret (runner_secrets_from config 0 creds)

-- The default export; `stringify` is that of the package `yaml`.
pub generate_resources : (Document → Text) → Config → List RunnerCreds → List Text
generate_resources stringify config creds = map stringify (documents config creds)
