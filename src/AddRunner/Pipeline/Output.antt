-- ===== src/AddRunner/Pipeline/Output.antt =====
-- The whole command (add-runner/src/index.ts, getResources.ts): when it succeeds, and what it
-- writes then.
use github_runner_autoscaler.Common.{
  ◌≡◌, arith, err, refl, sym, ap, ◌∙◌, Text, List, [], ◌∷◌, ◌++◌, append-nil, some, Result, ok,
  join, true,
}
use github_runner_autoscaler.AddRunner.Config.{Config, FileSystem, Error, get_config}
use github_runner_autoscaler.AddRunner.Resources.{RunnerCreds, Document, generate_resources}
use github_runner_autoscaler.AddRunner.Runner.{RunOptions, Files, Host, World, M, setup, image}
use github_runner_autoscaler.AddRunner.Runner.Laws.{AreCredentials}
use github_runner_autoscaler.AddRunner.Pipeline.{
  GitHub, get_reg_token, register_from, get_resources, ◌>>=◌, ◌>>◌, return, lift, main, Target,
  target_of, separator, write_all,
}
use github_runner_autoscaler.AddRunner.Pipeline.Bind.{bind-ok, ok-injective}
use github_runner_autoscaler.AddRunner.Pipeline.Registration.{
  IsRegistered, register_from_ok, register_from_total,
}

-- The text that a sequence of writes makes.
pub concat : List Text → Text
concat [] = []
concat (t ∷ ts) = t ++ concat ts

-- The text that the writes make up is the resources joined by the separator.
pub concat-write_all : (docs : List Text) → concat (write_all docs) ≡ join separator docs
unfolding concat write_all
concat-write_all [] = refl
concat-write_all (d ∷ []) = append-nil d
concat-write_all (d ∷ (e ∷ docs)) =
    ap (λ (r : Text). d ++ (separator ++ r)) (concat-write_all (e ∷ docs))

get_reg_token-ok :
    (github : GitHub) (gh_token owner repo : Text) (w : World) (token : Text)
    → (get_reg_token github gh_token owner repo w).0 ≡ ok token
    → (github gh_token owner repo ≡ some token)
      × ((get_reg_token github gh_token owner repo w).1 ≡ w)
unfolding get_reg_token
get_reg_token-ok github gh_token owner repo w token h = ground arith

setup-ok :
    (host : Host) (w : World) (u : Unit {0})
    → (setup host w).0 ≡ ok u
    → (host.pull image ≡ true) × ((setup host w).1 ≡ w)
unfolding setup
setup-ok host w u h = ground arith

-- What is true when the resources have been made.
pub record AreMade (github : GitHub) (host : Host) (stringify : Document → Text) (config : Config)
    (w : World) (docs : List Text) (v : World) : Type 0 where
  pub token : Text
  pub creds : List RunnerCreds
  pub authorised : github config.admin_pat config.owner config.repo ≡ some token
  pub pulled : host.pull image ≡ true
  pub registered : IsRegistered host token config 0 config.max_runners w creds v
  pub written : docs ≡ generate_resources stringify config creds

pub get_resources-ok :
    (github : GitHub) (host : Host) (stringify : Document → Text) (config : Config) (w : World)
    (docs : List Text)
    → (get_resources github host stringify config w).0 ≡ ok docs
    → AreMade github host stringify config w docs (get_resources github host stringify config w).1
unfolding get_resources
get_resources-ok github host stringify config w docs h =
    let finish : List RunnerCreds → M (List Text) =
      λ creds. return (generate_resources stringify config creds) in
    let loop : Text → M (List Text) =
      λ token. register_from host token config 0 config.max_runners >>= finish in
    let prepared : Text → M (List Text) = λ token. setup host >> loop token in
    let (token, e₁, s₁) =
      bind-ok (get_reg_token github config.admin_pat config.owner config.repo) prepared w h in
    let (granted, w₁) =
      get_reg_token-ok github config.admin_pat config.owner config.repo w token e₁ in
    let t₁ : (get_resources github host stringify config w) ≡ prepared token w =
      s₁ ∙ ap (prepared token) w₁ in
    let (u, e₂, s₂) = bind-ok (setup host) (λ _. loop token) w (ap (λ r. r.0) (sym t₁) ∙ h) in
    let (pulled, w₂) = setup-ok host w u e₂ in
    let t₂ : (get_resources github host stringify config w) ≡ loop token w =
      t₁ ∙ s₂ ∙ ap (loop token) w₂ in
    let (creds, e₃, s₃) =
      bind-ok (register_from host token config 0 config.max_runners) finish w
        (ap (λ r. r.0) (sym t₂) ∙ h) in
    let t₃ = t₂ ∙ s₃ in
    record {
      token = token;
      creds = creds;
      authorised = granted;
      pulled = pulled;
      registered =
          rw (ap (λ r. r.1) t₃)
            (register_from_ok host token config 0 config.max_runners w creds e₃);
      written = ok-injective (sym h ∙ ap (λ r. r.0) t₃);
    }

lift-ok :
    (r : Result Error Config) (w : World) (c : Config)
    → (lift r w).0 ≡ ok c
    → (r ≡ ok c) × ((lift r w).1 ≡ w)
lift-ok (ok a) w c h = (ap ok (ok-injective h), refl)
lift-ok (err e) w c h = absurd (ground arith)

-- What is true when the command has succeeded.
pub record IsDone (fs : FileSystem) (github : GitHub) (host : Host) (stringify : Document → Text)
    (parsed : Config) (w : World) (target : Target) (writes : List Text) (v : World) : Type 0 where
  pub config : Config
  pub docs : List Text
  pub configured : get_config fs parsed ≡ ok config
  pub made : AreMade github host stringify config w docs v
  pub aimed : target ≡ target_of config.output
  pub text : concat writes ≡ join separator docs

-- When the command succeeds, the configuration was accepted, GitHub gave a registration token for
-- the repository, the image was pulled, there was one run of the container for each of maxRunners
-- runners, in order and with the options of that runner, the credentials are the five files that
-- each run left, the temporary directories are the same as before, and the text written to the
-- named output, or to the standard output if none is named, is the documents for those credentials
-- with a separator between each two.
pub main-IsDone :
    (fs : FileSystem) (github : GitHub) (host : Host) (stringify : Document → Text)
    (parsed : Config) (w : World) (target : Target) (writes : List Text)
    → (main fs github host stringify parsed w).0 ≡ ok (target, writes)
    → IsDone fs github host stringify parsed w target writes
        (main fs github host stringify parsed w).1
unfolding main
main-IsDone fs github host stringify parsed w target writes h =
    let finish : Config → List Text → M (Target × List Text) =
      λ config docs. return (target_of config.output, write_all docs) in
    let build : Config → M (Target × List Text) =
      λ config. get_resources github host stringify config >>= finish config in
    let (config, e₁, s₁) = bind-ok (lift (get_config fs parsed)) build w h in
    let (configured, w₁) = lift-ok (get_config fs parsed) w config e₁ in
    let t₁ : main fs github host stringify parsed w ≡ build config w = s₁ ∙ ap (build config) w₁ in
    let (docs, e₂, s₂) =
      bind-ok (get_resources github host stringify config) (finish config) w
        (ap (λ r. r.0) (sym t₁) ∙ h) in
    let t₂ = t₁ ∙ s₂ in
    let out : (target, writes) ≡ (target_of config.output, write_all docs) =
      ok-injective (sym h ∙ ap (λ r. r.0) t₂) in
    record {
      config = config;
      docs = docs;
      configured = configured;
      made = rw (ap (λ r. r.1) t₂) (get_resources-ok github host stringify config w docs e₂);
      aimed = ap (λ o. o.0) out;
      text = ap (λ o. concat o.1) out ∙ concat-write_all docs;
    }

-- What the command needs: each run leaves the five credential files.
abbrev pub Registers : Host → Type 0
Registers host =
    (o : RunOptions)
    → (files : Files) × (host.run o ≡ some files) × ((c : RunnerCreds) × AreCredentials files c)

get_resources_total :
    (github : GitHub) (host : Host) (stringify : Document → Text) (config : Config) (w : World)
    (token : Text)
    → github config.admin_pat config.owner config.repo ≡ some token
    → host.pull image ≡ true
    → Registers host
    → (docs : List Text) × ((get_resources github host stringify config w).0 ≡ ok docs)
unfolding get_resources get_reg_token setup
get_resources_total github host stringify config w token granted pulled good =
    let (creds, e) = register_from_total host token config good 0 config.max_runners w in
    (generate_resources stringify config creds, ground (arith, granted, pulled, e))

-- The command succeeds, with writes to the output that the arguments name, if the configuration is
-- accepted, GitHub gives a registration token, the image is pulled and every run leaves the five
-- credential files.
pub main_total :
    (fs : FileSystem) (github : GitHub) (host : Host) (stringify : Document → Text)
    (parsed config : Config) (w : World) (token : Text)
    → get_config fs parsed ≡ ok config
    → github config.admin_pat config.owner config.repo ≡ some token
    → host.pull image ≡ true
    → Registers host
    → (writes : List Text) × ((main fs github host stringify parsed w).0
        ≡ ok (target_of config.output, writes))
unfolding main
main_total fs github host stringify parsed config w token accepted granted pulled good =
    let (docs, e) = get_resources_total github host stringify config w token granted pulled good in
    (write_all docs, ground (arith, accepted, e))
