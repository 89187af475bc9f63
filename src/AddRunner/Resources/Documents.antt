-- ===== src/AddRunner/Resources/Documents.antt =====
-- What the documents hold (add-runner/src/resources.ts).
use github_runner_autoscaler.Common.{
  ℕ, zero, suc, ◌+◌, ◌≡◌, refl, ap, ◌∙◌, arith, Text, codes, List, [], ◌∷◌, map, some, length,
  length-map, get_elem?, All,
}
use github_runner_autoscaler.AddRunner.Config.{Config}
use github_runner_autoscaler.AddRunner.Encoding.{utf8}
use github_runner_autoscaler.AddRunner.Encoding.RoundTrip.{IsUnit16, decode64, decode64-btoa}
use github_runner_autoscaler.AddRunner.Resources.{
  RunnerCreds, Secret, generate_secret, generate_runner_secret, runner_name, runner_secrets_from,
  generate_scaled_action_runner, read_pat_secret, Document, scaled_action_runner, secret, documents,
  generate_resources,
}

-- Every text is a text of JavaScript: its code units have 16 bits.
pub record IsWellCoded (c : RunnerCreds) : Type 0 where
  pub rsaparams : All IsUnit16 c.credentials_rsaparams
  pub credentials : All IsUnit16 c.credentials
  pub runner : All IsUnit16 c.runner
  pub private_key : All IsUnit16 c.private_key
  pub public_key : All IsUnit16 c.public_key

-- The entries of a secret as Kubernetes hands them out, decoded.
pub decoded : Secret → List (Text × List ℕ)
decoded s = map (λ e. (e.0, decode64 e.1)) s.entries

-- If the five credentials are texts of 16-bit code units, the entries of a runner secret, decoded,
-- are the UTF-8 bytes of the five credential files, under the names of those files.
pub decoded-generate_runner_secret :
    (name namespace : Text) (c : RunnerCreds)
    → IsWellCoded c
    → decoded (generate_runner_secret name namespace c)
      ≡ (codes ".credentials_rsaparams", utf8 c.credentials_rsaparams)
        ∷ (codes ".credentials", utf8 c.credentials)
        ∷ (codes ".runner", utf8 c.runner)
        ∷ (codes "private.pem", utf8 c.private_key)
        ∷ (codes "public.pem", utf8 c.public_key)
        ∷ []
unfolding decoded generate_runner_secret generate_secret
decoded-generate_runner_secret name namespace c w = rw (
  decode64-btoa c.credentials_rsaparams w.rsaparams,
  decode64-btoa c.credentials w.credentials,
  decode64-btoa c.runner w.runner,
  decode64-btoa c.private_key w.private_key,
  decode64-btoa c.public_key w.public_key,
)

get_elem?-runner_secrets_from :
    (stringify : Document → Text) (config : Config) (j i : ℕ) (creds : List RunnerCreds)
    (c : RunnerCreds)
    → get_elem? creds i ≡ some c
    → get_elem? (map stringify (map secret (runner_secrets_from config j creds))) i
      ≡ some (
          stringify (
            secret
              (generate_runner_secret (runner_name config.name (j + i)) config.stateful_set_ns c)))
unfolding runner_secrets_from
get_elem?-runner_secrets_from stringify config j i [] c h = ground arith
get_elem?-runner_secrets_from stringify config j zero (d ∷ creds) c h = ground arith
get_elem?-runner_secrets_from stringify config j (suc i) (d ∷ creds) c h =
    let shift : j + suc i ≡ suc j + i = omega arith in
    rw shift (get_elem?-runner_secrets_from stringify config (suc j) i creds c h)

length-runner_secrets_from :
    (config : Config) (j : ℕ) (creds : List RunnerCreds)
    → length (runner_secrets_from config j creds) ≡ length creds
unfolding runner_secrets_from
length-runner_secrets_from config j [] = refl
length-runner_secrets_from config j (c ∷ creds) =
    ap suc (length-runner_secrets_from config (suc j) creds)

-- There are two resources more than credentials; the ScaledActionRunner comes first and the secret
-- of the token second.
pub generate_resources_layout :
    (stringify : Document → Text) (config : Config) (creds : List RunnerCreds)
    → (length (generate_resources stringify config creds) ≡ 2 + length creds)
      × (get_elem? (generate_resources stringify config creds) 0
          ≡ some (stringify (scaled_action_runner (generate_scaled_action_runner config))))
      × (get_elem? (generate_resources stringify config creds) 1
          ≡ some (stringify (secret (read_pat_secret config))))
unfolding generate_resources documents
generate_resources_layout stringify config creds = (omega (arith, count), refl, refl)
  where
    count : length (map stringify (map secret (runner_secrets_from config 0 creds))) ≡ length creds
    count = length-map _ stringify ∙ length-map _ secret ∙ length-runner_secrets_from config 0 creds

-- If runner i has credentials, the text at place i + 2 of the resources is the secret of that
-- runner, with its name, the namespace of the stateful set and its credentials.
pub get_elem?-generate_resources :
    (stringify : Document → Text) (config : Config) (creds : List RunnerCreds) (i : ℕ)
    (c : RunnerCreds)
    → get_elem? creds i ≡ some c
    → get_elem? (generate_resources stringify config creds) (suc (suc i))
      ≡ some (
          stringify
            (secret (generate_runner_secret (runner_name config.name i) config.stateful_set_ns c)))
unfolding generate_resources documents
get_elem?-generate_resources stringify config creds i c h =
    let start : 0 + i ≡ i = omega arith in
    rw start at (get_elem?-runner_secrets_from stringify config 0 i creds c h)
