-- ===== src/Operator/SecretsHash/Reading.antt =====
-- scaledactionrunner_controller.go: what the annotation with the hash of the secrets reveals.
use github_runner_autoscaler.Common.{
  ℕ, zero, suc, ◌≡◌, refl, sym, ap, ◌∙◌, List, [], ◌∷◌, ◌++◌, append_assoc, Text, Result, ok, err,
  All, All-append,
}
use github_runner_autoscaler.Common.Int.{pos_part}
use github_runner_autoscaler.AddRunner.Encoding.{base64}
use github_runner_autoscaler.AddRunner.Encoding.RoundTrip.{IsByte, decode64, decode64-base64}
use github_runner_autoscaler.Operator.Resource.{Kubernetes, ScaledActionRunner}
use github_runner_autoscaler.Operator.SecretsHash.{
  sum, get_hash, hash_or_none, hash_runners, get_secrets_hash,
}

module _ (digest : List ℕ) (read_data : Text → Text → Result Text (List ℕ)) where
  -- What is read are bytes.
  abbrev pub ReadsBytes : Type 0
  ReadsBytes = (ns n : Text) (bytes : List ℕ) → read_data ns n ≡ ok bytes → All IsByte bytes

  module _ (bytes_read : ReadsBytes) (IsDigest : All IsByte digest) where
    hash-IsByte :
        (r : Result Text (List ℕ)) (s ns : Text)
        → read_data ns s ≡ r
        → All IsByte (hash_or_none digest read_data (get_hash digest read_data s ns))
    hash-IsByte (ok bytes) s ns e =
        rw (e, get_hash) (All-append IsByte bytes digest (bytes_read ns s bytes e) IsDigest)
    hash-IsByte (err m) s ns e = rw (e, get_hash) tt

    hash_runners-IsByte :
        (ns : Text) (n : ℕ) (secrets : List Text)
        → All IsByte (hash_runners digest read_data ns n secrets)
    unfolding hash_runners
    hash_runners-IsByte ns zero secrets = tt
    hash_runners-IsByte ns (suc n) [] = hash_runners-IsByte ns n []
    hash_runners-IsByte ns (suc n) (s ∷ secrets) =
        All-append IsByte _ _ (hash-IsByte _ s ns refl) (hash_runners-IsByte ns n secrets)

    regroup : (t r : List ℕ) → ((t ++ digest) ++ r) ++ digest ≡ t ++ ((digest ++ r) ++ digest)
    regroup t r =
        append_assoc (t ++ digest) r digest
        ∙ append_assoc t digest (r ++ digest)
        ∙ ap (λ l. t ++ l) (sym (append_assoc digest r digest))

    -- If the data of the secret with the token is read in the namespace of the runners, the hash
    -- of the secrets is made, and it is a text whose Base64 decoding begins with that data. What
    -- is read, and the digest, are bytes.
    pub get_secrets_hash-reveals :
        (K : Kubernetes) (c : ScaledActionRunner K) (api_server_ns : Text) (token : List ℕ)
        → read_data c.namespace c.spec.github_token_secret ≡ ok token
        → (hash : Text) × (rest : List ℕ) × (get_secrets_hash digest read_data K c api_server_ns
            ≡ ok hash)
          × (decode64 hash ≡ token ++ rest)
    unfolding get_secrets_hash
    get_secrets_hash-reveals K c api_server_ns token e =
        let runners =
          hash_runners digest read_data c.namespace (pos_part c.spec.max_runners)
            c.spec.runner_secrets in
        let all_bytes = sum digest read_data ((token ++ digest) ++ runners) in
        (
          base64 all_bytes,
          (digest ++ runners) ++ digest,
          rw (e, get_secrets_hash, get_hash) refl,
          decode64-base64 all_bytes (
                All-append IsByte ((token ++ digest) ++ runners) digest
                  (All-append IsByte (token ++ digest) runners
                    (All-append IsByte token digest (bytes_read _ _ token e) IsDigest)
                    (hash_runners-IsByte c.namespace (pos_part c.spec.max_runners)
                      c.spec.runner_secrets))
                  IsDigest)
              ∙ regroup token runners,
        )
