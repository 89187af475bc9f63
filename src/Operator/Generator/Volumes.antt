-- ===== src/Operator/Generator/Volumes.antt =====
-- sargenerator.go: the volumes of the resources that the command writes (add-runner).
use github_runner_autoscaler.Common.{
  ℕ, zero, suc, ◌≡◌, refl, ap, Bool, List, ◌∷◌, ◌++◌, map, Text, length,
}
use github_runner_autoscaler.Common.Int.{pos}
use github_runner_autoscaler.AddRunner.Config.{Config}
use github_runner_autoscaler.AddRunner.Resources.{
  RunnerCreds, generate_scaled_action_runner, runner_name, runner_names, runner_secrets_from,
}
use github_runner_autoscaler.AddRunner.Resources.Names.{spec-names-secrets}
use github_runner_autoscaler.Operator.Resource.{Kubernetes, ScaledActionRunner}
use github_runner_autoscaler.Operator.Generator.{
  secret_volumes, secret_mounts, get_volumes, runner_mount, runner_volume, socket_volume,
  socket_mount, workdir_mount,
}

module _ (K : Kubernetes) where
  secret_volumes-names :
      (name : Text) (i n : ℕ)
      → secret_volumes K name i n (runner_names name i n)
        ≡ map (λ s. runner_volume K s s) (runner_names name i n)
  unfolding secret_volumes runner_names runner_name
  secret_volumes-names name i zero = refl
  secret_volumes-names name i (suc n) = rw (secret_volumes-names name (suc i) n) refl

  secret_mounts-names :
      (name : Text) (i n : ℕ)
      → secret_mounts K name i n (runner_names name i n)
        ≡ map (runner_mount K) (runner_names name i n)
  unfolding secret_mounts runner_names runner_name
  secret_mounts-names name i zero = refl
  secret_mounts-names name i (suc n) = rw (secret_mounts-names name (suc i) n) refl

  -- The resource in the cluster is the one that the command wrote.
  abbrev pub IsWritten : Config → ScaledActionRunner K → Type 0
  IsWritten config c =
      let written = generate_scaled_action_runner config in
      (c.name ≡ written.name)
      × (c.spec.max_runners ≡ pos written.spec.max_runners)
      × (c.spec.runner_secrets ≡ written.spec.runner_secrets)

  -- For a resource that the command wrote with credentials for each of its runners, the volumes
  -- are the secrets that the command wrote for the runners, in order, under their names, and each
  -- is mounted at the directory of its name.
  pub get_volumes-written :
      (config : Config) (creds : List RunnerCreds) (c : ScaledActionRunner K) (mount : Bool)
      → length creds ≡ config.max_runners
      → IsWritten config c
      → let names = map (λ s. s.name) (runner_secrets_from config 0 creds) in
        get_volumes K c mount ≡ (
          socket_volume K mount ++ map (λ s. runner_volume K s s) names,
          workdir_mount K ∷ socket_mount K mount ++ map (runner_mount K) names,
        )
  unfolding get_volumes generate_scaled_action_runner
  get_volumes-written config creds c mount h (e1, e2, e3) = rw e1 (
      rw e2 (
        rw e3 (
          rw (secret_volumes-names config.name 0 config.max_runners) (
            rw (secret_mounts-names config.name 0 config.max_runners) (
              ap
                (λ names. (
                  socket_volume K mount ++ map (λ s. runner_volume K s s) names,
                  workdir_mount K ∷ socket_mount K mount ++ map (runner_mount K) names,
                ))
                (spec-names-secrets config creds h).0)))))
