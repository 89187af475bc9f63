-- ===== src/Operator/SecretsHash.antt =====
-- operator/controllers/scaledactionrunner_controller.go: the hash of the secrets, which the stateful set
-- carries as an annotation. The annotation that each secret that was read gets is left out.
pub mod Reading
use github_runner_autoscaler.Common.{ℕ, zero, suc, List, [], ◌∷◌, ◌++◌, Text, Result, ok, err}
use github_runner_autoscaler.Common.Int.{ℤ, pos_part}
use github_runner_autoscaler.AddRunner.Encoding.{base64}
use github_runner_autoscaler.Operator.Resource.{Kubernetes, ScaledActionRunner}

-- `empty_digest` is SHA-256 of no bytes, which is what `sha.Sum(data)` appends to the data, since
-- nothing is ever written to `sha`; `read_data` is the JSON text of the data of the secret with
-- this namespace and name.
module _ (empty_digest : List ℕ) (read_data : Text → Text → Result Text (List ℕ)) where
  -- `sha.Sum`
  abbrev pub sum : List ℕ → List ℕ
  sum data_bytes = data_bytes ++ empty_digest

  abbrev pub get_hash : Text → Text → Result Text (List ℕ)
  get_hash name namespace = elim (read_data namespace name) [
    | ok bytes ↦ ok (sum bytes)
    | err e ↦ err e
  ]

  abbrev pub or_try : Result Text (List ℕ) → Result Text (List ℕ) → Result Text (List ℕ)
  or_try (ok bytes) other = ok bytes
  or_try (err e) other = other

  abbrev pub hash_or_none : Result Text (List ℕ) → List ℕ
  hash_or_none (ok bytes) = bytes
  hash_or_none (err e) = []

  -- The loop over the runners, with so many rounds left and the secrets that are left.
  unfoldable pub hash_runners : Text → ℕ → List Text → List ℕ
  hash_runners namespace zero secrets = []
  hash_runners namespace (suc rounds) [] = hash_runners namespace rounds []
  hash_runners namespace (suc rounds) (s ∷ secrets) =
      hash_or_none (get_hash s namespace) ++ hash_runners namespace rounds secrets

  unfoldable pub get_secrets_hash :
      (K : Kubernetes) → ScaledActionRunner K → Text → Result Text Text
  unfolding hash_runners base64
  get_secrets_hash K c api_server_ns =
      elim (or_try (get_hash c.spec.github_token_secret c.namespace)
        (get_hash c.spec.github_token_secret api_server_ns)) [
          | err e ↦ err e
          | ok token ↦ ok (
              base64 (
                sum (
                  token
                  ++ hash_runners c.namespace (pos_part c.spec.max_runners) c.spec.runner_secrets)))
        ]
