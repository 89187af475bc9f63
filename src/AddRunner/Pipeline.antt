-- ===== src/AddRunner/Pipeline.antt =====
-- add-runner/src/getResources.ts, githubRegistration.ts and index.ts: the whole command. Octokit's
-- call is a parameter, beside those of the module Runner.
pub mod Bind
pub mod Registration
pub mod Output
use github_runner_autoscaler.Common.{
  ℕ, zero, suc, Text, codes, text_eq, Bool, true, false, not, List, [], ◌∷◌, ◌++◌, map, Option,
  none, some, Result, ok, err, if◌then◌else◌,
}
use github_runner_autoscaler.AddRunner.Config.{Config, FileSystem, Error, get_config}
use github_runner_autoscaler.AddRunner.Resources.{
  RunnerCreds, Document, generate_resources, runner_name,
}
use github_runner_autoscaler.AddRunner.Runner.{
  Failure, bad_config, no_registration_token, Host, World, M, setup, add_runner,
}

infixl 5 ◌>>=◌ ◌>>◌
abbrev pub ◌>>=◌ : {A B : Type 0} → M A → (A → M B) → M B
◌>>=◌ m f w = let r = m w in elim (r.0) [ ok a ↦ f a r.1 | err e ↦ (err e, r.1) ]

abbrev pub ◌>>◌ : {A B : Type 0} → M A → M B → M B
m >> k = m >>= λ _. k

abbrev pub return : {A : Type 0} → A → M A
return a w = (ok a, w)

-- `github.actions.createRegistrationTokenForRepo` with a token, an owner and a repository: the
-- registration token, or a rejection.
abbrev pub GitHub : Type 0
GitHub = Text → Text → Text → Option Text

-- `getRegToken`
pub get_reg_token : GitHub → Text → Text → Text → M Text
get_reg_token github gh_token owner repo w = elim (github gh_token owner repo) [
  | none ↦ (err no_registration_token, w)
  | some token ↦ (ok token, w)
]

-- The loop over the runners: `i` counts up, and so many rounds are left.
unfoldable pub register_from : Host → Text → Config → ℕ → ℕ → M (List RunnerCreds)
register_from host token config i zero = return []
register_from host token config i (suc rounds) = do
  c ← add_runner host token config.owner config.repo (runner_name config.name i) config.labels
  creds ← register_from host token config (suc i) rounds
  return (c ∷ creds)

-- The default export of getResources.ts.
pub get_resources : GitHub → Host → (Document → Text) → Config → M (List Text)
get_resources github host stringify config = do
  token ← get_reg_token github config.admin_pat config.owner config.repo
  setup host
  creds ← register_from host token config 0 config.max_runners
  return (generate_resources stringify config creds)

-- Where the text goes.
pub data Target : Type 0 where
  stdout : Target
  to_file : Text → Target

abbrev pub target_of : Text → Target
target_of [] = stdout
target_of (c ∷ s) = to_file (c ∷ s)

abbrev pub separator : Text
separator = codes "\n---\n"

-- The loop of `main`: the calls of `out.write`, in order.
pub write_all : List Text → List Text
write_all [] = []
write_all (yml ∷ []) = yml ∷ []
write_all (yml ∷ (next ∷ rest)) = yml ∷ separator ∷ write_all (next ∷ rest)

abbrev pub lift : {A : Type 0} → Result Error A → M A
lift (ok a) w = (ok a, w)
lift (err e) w = (err (bad_config e), w)

-- `main` on the configuration that the argument parser returned.
pub main : FileSystem → GitHub → Host → (Document → Text) → Config → M (Target × List Text)
main fs github host stringify parsed = do
  config ← lift (get_config fs parsed)
  resources ← get_resources github host stringify config
  return (target_of config.output, write_all resources)
