-- ===== src/AddRunner/Resources/Names.antt =====
-- The names of the secrets (add-runner/src/resources.ts): those that the ScaledActionRunner lists
-- are those that are generated, and no two secrets share a name.
use github_runner_autoscaler.Common.{
  ℕ, zero, suc, ◌<◌, ◌≡◌, ◌≢◌, refl, sym, ap, ◌∙◌, arith, Text, List, [], ◌∷◌, ◌++◌, map, length,
  length-append, All,
}
use github_runner_autoscaler.AddRunner.Config.{Config}
use github_runner_autoscaler.AddRunner.Encoding.{decimal}
use github_runner_autoscaler.AddRunner.Encoding.RoundTrip.{read_decimal, read_decimal_lem}
use github_runner_autoscaler.AddRunner.Resources.{
  RunnerCreds, Secret, generate_secret, generate_runner_secret, runner_name, runner_names,
  runner_secrets_from, generate_scaled_action_runner, read_pat_secret,
}

abbrev pub secret_name : Secret → Text
secret_name s = s.name

pub runner_secrets_from-names :
    (config : Config) (i : ℕ) (creds : List RunnerCreds)
    → map secret_name (runner_secrets_from config i creds)
      ≡ runner_names config.name i (length creds)
unfolding runner_secrets_from runner_names generate_runner_secret generate_secret
runner_secrets_from-names config i [] = refl
runner_secrets_from-names config i (c ∷ creds) =
    ap (λ r. runner_name config.name i ∷ r) (runner_secrets_from-names config (suc i) creds)

-- With credentials for each of maxRunners runners, the secrets that the ScaledActionRunner lists
-- are the names of the generated runner secrets, in order, and its token secret is the name of the
-- generated one.
pub spec-names-secrets :
    (config : Config) (creds : List RunnerCreds)
    → length creds ≡ config.max_runners
    → ((generate_scaled_action_runner config).spec.runner_secrets
        ≡ map secret_name (runner_secrets_from config 0 creds))
      × ((generate_scaled_action_runner config).spec.github_token_secret
          ≡ secret_name (read_pat_secret config))
unfolding generate_scaled_action_runner read_pat_secret generate_secret
spec-names-secrets config creds h =
    (ap (runner_names config.name 0) (sym h) ∙ sym (runner_secrets_from-names config 0 creds), refl)

-- No two members are equal.
abbrev pub Distinct {ℓ} : {A : Type ℓ} → List A → Type ℓ
Distinct [] = Unit
Distinct (x ∷ xs) = All (λ y. x ≢ y) xs × Distinct xs

append_cancel : (p s t : Text) → p ++ s ≡ p ++ t → s ≡ t
append_cancel [] s t e = e
append_cancel (c ∷ p) s t e = append_cancel p s t (ground arith)

decimal_injective : (i j : ℕ) → decimal i ≡ decimal j → i ≡ j
decimal_injective i j e = sym (read_decimal_lem i) ∙ ap (read_decimal 0) e ∙ read_decimal_lem j

runner_name_injective : (name : Text) (i j : ℕ) → runner_name name i ≡ runner_name name j → i ≡ j
unfolding runner_name
runner_name_injective name i j e =
    decimal_injective i j (ground (arith, append_cancel name (b'-' ∷ decimal i) (b'-' ∷ decimal j)))

name-ne-runner_name : (name : Text) (i : ℕ) → name ≢ runner_name name i
unfolding runner_name
name-ne-runner_name name i e =
    absurd (omega (arith, ap length e, length-append name (b'-' ∷ decimal i)))

later_names :
    (name : Text) (i j rounds : ℕ)
    → i < j
    → All (λ n. runner_name name i ≢ n) (runner_names name j rounds)
unfolding runner_names
later_names name i j zero h = tt
later_names name i j (suc rounds) h = (
  (λ e. absurd (omega (arith, runner_name_injective name i j e))),
  later_names name i (suc j) rounds (omega arith),
)

base_name : (name : Text) (j rounds : ℕ) → All (λ n. name ≢ n) (runner_names name j rounds)
unfolding runner_names
base_name name j zero = tt
base_name name j (suc rounds) = (name-ne-runner_name name j, base_name name (suc j) rounds)

runner_names-Distinct : (name : Text) (j rounds : ℕ) → Distinct (runner_names name j rounds)
unfolding runner_names
runner_names-Distinct name j zero = tt
runner_names-Distinct name j (suc rounds) =
    (later_names name j (suc j) rounds (omega arith), runner_names-Distinct name (suc j) rounds)

-- No two of the generated secrets, the one with the token among them, have the same name.
pub secrets-Distinct :
    (config : Config) (creds : List RunnerCreds)
    → Distinct (map secret_name (read_pat_secret config ∷ runner_secrets_from config 0 creds))
unfolding read_pat_secret generate_secret
secrets-Distinct config creds =
    rw (runner_secrets_from-names config 0 creds)
      (base_name config.name 0 (length creds), runner_names-Distinct config.name 0 (length creds))
