-- ===== src/ApiServer/Config/Laws.antt =====
-- config.go: which flags are accepted, and which namespaces they give.
use github_runner_autoscaler.Common.{
  ◌≡◌, ◌≢◌, ◌↔◌, refl, true, false, Option, List, [], ◌∷◌, Text, ok, arith, ◌⊎◌, inl, inr,
}
use github_runner_autoscaler.Common.Int.{ℤ}
use github_runner_autoscaler.ApiServer.Config.{Flags, ServerConfig, configured, setup_config}

List-cases : (l : List Text) → (l ≡ []) ⊎ ((x : Text) × (xs : List Text) × (l ≡ x ∷ xs))
List-cases [] = inl refl
List-cases (x ∷ xs) = inr (x, xs, refl)

-- Either some namespaces are given or all of them are asked for, and not both.
abbrev pub IsEither : Flags → Type 0
IsEither flags =
    ((flags.runner_namespaces ≡ []) × (flags.all_ns ≡ true))
    ⊎ ((flags.runner_namespaces ≢ []) × (flags.all_ns ≡ false))

module _ (parse : Text → Option ℤ) (flags : Flags) (c : ServerConfig) where
  accepted : IsEither flags → setup_config parse flags c ≡ ok (configured parse flags c)
  unfolding setup_config
  accepted h = elim (List-cases flags.runner_namespaces) [
    | inl none_given ↦ ground arith
    | inr (x, xs, some_given) ↦ ground arith
  ]

  either : (r : ServerConfig) → setup_config parse flags c ≡ ok r → IsEither flags
  unfolding setup_config
  either r e = elim (List-cases flags.runner_namespaces) [
    | inl none_given ↦ inl (none_given, ground arith)
    | inr (x, xs, some_given) ↦ inr (λ e'. ground arith, ground arith)
  ]

  -- The flags are accepted, with the namespaces as the flag has them, exactly if either some
  -- namespaces are given or all of them are asked for, and not both.
  pub setup_config_iff :
      ((r : ServerConfig) × (setup_config parse flags c ≡ ok r)
        × (r.runner_namespaces ≡ flags.runner_namespaces))
      ↔ IsEither flags
  unfolding configured
  setup_config_iff = (λ (r, e, _). either r e, λ h. (configured parse flags c, accepted h, refl))
