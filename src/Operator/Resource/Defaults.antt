-- ===== src/Operator/Resource/Defaults.antt =====
-- scaledactionrunner_types.go: the defaults are given once.
use github_runner_autoscaler.Common.{◌≡◌, refl, ap, some, [], ◌∷◌, Text, codes}
use github_runner_autoscaler.Operator.Resource.{
  Kubernetes, Runner, ScaledActionRunner, setup, setup_runner, or_text, or_else, empty_runner,
}

or_text-again : (t d : Text) → or_text (or_text t d) d ≡ or_text t d
or_text-again [] [] = refl
or_text-again [] (c ∷ d) = refl
or_text-again (c ∷ t) d = refl

module _ (K : Kubernetes) where
  setup_runner-again : (r : Runner K) → setup_runner K (setup_runner K r) ≡ setup_runner K r
  setup_runner-again r =
      rw (or_text-again r.image (codes "myoung34/github-runner:latest"))
        (rw (or_text-again r.service_account_name (codes "default")) refl)

  pub setup-again : (sr : ScaledActionRunner K) → setup K (setup K sr) ≡ setup K sr
  unfolding setup
  setup-again sr =
      let once = setup K sr in
      ap (λ r. record once { spec = record once.spec { runner = some r } })
        (setup_runner-again (or_else sr.spec.runner (empty_runner K)))
