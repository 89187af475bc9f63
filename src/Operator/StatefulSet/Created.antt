-- ===== src/Operator/StatefulSet/Created.antt =====
-- A stateful set that was made (sargenerator.go) needs no update (scaledactionrunner_controller.go).
use github_runner_autoscaler.Common.{
  ◌≡◌, refl, ap, true, false, none, some, List, [], Text, text_eq_refl,
}
use github_runner_autoscaler.Common.Dict.{lookup}
use github_runner_autoscaler.Operator.Resource.{
  Kubernetes, IsReflexive, EnvVar, ScaledActionRunner, Runner, setup, setup_runner, or_else,
  empty_runner, default_claim,
}
use github_runner_autoscaler.Operator.Generator.{
  StatefulSet, Volume, VolumeMount, get_volumes, env_to_set, set_env,
}
use github_runner_autoscaler.Operator.Generator.Create.{generate_stateful_set}
use github_runner_autoscaler.Operator.Generator.Env.{IsRange, set_env-again}
use github_runner_autoscaler.Operator.Generator.Env.Names.{env_to_set-IsNamed}
use github_runner_autoscaler.Operator.StatefulSet.{map_same, is_current, get_scaled_set_updates}
use github_runner_autoscaler.Operator.StatefulSet.Again.{
  volumes_refl, mounts_refl, resources_equal_refl, option_same_refl, map_same_refl,
  tolerations_refl,
}

module _ (K : Kubernetes) (R : IsReflexive K)
    (order : List (Text × EnvVar K) → List (Text × EnvVar K)) (range : IsRange order)
    (config : ScaledActionRunner K) (hash : Text) where
  abbrev runner : Runner K
  runner = setup_runner K (or_else config.spec.runner (empty_runner K))

  abbrev claim : K.Claim
  claim = or_else runner.work_volume_claim_template (default_claim K)

  abbrev volumes : List (Volume K) × List VolumeMount
  volumes = get_volumes K (setup K config) (or_else runner.mount_docker_sock true)

  env_current :
      (set_env K order
        (env_to_set K (setup K config) runner)
        (set_env K order (env_to_set K (setup K config) runner) []).0).1
      ≡ false
  env_current =
      ap (λ r. r.1)
        (set_env-again K R order (env_to_set K (setup K config) runner) [] range
          (env_to_set-IsNamed K (setup K config) runner))

  -- Once the defaults are given, the stateful set for new runners is made, and no update is found
  -- for it: the generator and the reconciler agree. A range over a map visits each entry once, in
  -- some order, and the comparisons of the library find a value the same as itself.
  pub generate_stateful_set-current :
      (made : StatefulSet K) × (generate_stateful_set K order (setup K config) hash ≡ some made)
      × (get_scaled_set_updates K order made (setup K config) hash ≡ some none)
  unfolding generate_stateful_set setup get_scaled_set_updates is_current lookup
  generate_stateful_set-current = (
    _,
    refl,
    rw (text_eq_refl config.name) (
        rw (text_eq_refl config.namespace) (
          rw (text_eq_refl hash) (
            rw (text_eq_refl runner.image) (
              rw (R.claim_refl claim) (
                rw env_current (
                  rw (volumes_refl K R (some volumes.0)) (
                    rw (mounts_refl (some volumes.1)) (
                      rw (resources_equal_refl K R (or_else runner.requests [])) (
                        rw (resources_equal_refl K R (or_else runner.limits [])) (
                          rw (option_same_refl map_same map_same_refl runner.annotations) (
                            rw (option_same_refl map_same map_same_refl runner.node_selector) (
                              rw (tolerations_refl K R runner.tolerations)
                                (rw (text_eq_refl runner.service_account_name) refl))))))))))))),
  )
