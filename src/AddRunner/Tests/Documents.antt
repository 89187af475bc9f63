-- ===== src/AddRunner/Tests/Documents.antt =====
-- The documents for a small configuration (add-runner/src/resources.ts).
use github_runner_autoscaler.Common.{
  ◌≡◌, refl, arith, Text, codes, true, [], ◌∷◌, All, all, ltb, map,
}
use github_runner_autoscaler.AddRunner.Encoding.RoundTrip.{IsUnit16}
use github_runner_autoscaler.AddRunner.Resources.{runner_secrets_from, read_pat_secret}
use github_runner_autoscaler.AddRunner.Resources.Names.{secret_name, Distinct, secrets-Distinct}
use github_runner_autoscaler.AddRunner.Resources.Documents.{IsWellCoded}
use github_runner_autoscaler.AddRunner.Tests.{accepted, creds}

unit16 : (s : Text) → all (λ c. ltb c 0x10000) s ≡ true → All IsUnit16 s
unit16 [] h = tt
unit16 (c ∷ s) h = ground (arith, unit16 s)

well_coded : IsWellCoded creds
well_coded = record {
  rsaparams = unit16 (codes "{}") refl;
  credentials = unit16 (codes "c") refl;
  runner = unit16 (codes "r") refl;
  private_key = unit16 (codes "k1") refl;
  public_key = unit16 (codes "k2") refl;
}

secrets-Distinct_example : Distinct (
    map secret_name
      (read_pat_secret accepted ∷ runner_secrets_from accepted 0 (creds ∷ creds ∷ [])))
secrets-Distinct_example = secrets-Distinct accepted (creds ∷ creds ∷ [])
