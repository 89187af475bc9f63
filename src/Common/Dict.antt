-- ===== src/Common/Dict.antt =====
-- Association lists by text, in the order of insertion.
use mathlib.Core.Path.{◌≡◌, refl}
use mathlib.Core.List.{List, [], ◌∷◌}
use mathlib.Core.Option.{Option, none, some}
use native.Mathlib.Omega.{arith}
use github_runner_autoscaler.Common.Tests.{if◌then◌else◌}
use github_runner_autoscaler.Common.Texts.{Text, text_eq, text_eq_iff}

module _ {ℓ} {A : Type ℓ} where
  unfoldable pub lookup : Text → List (Text × A) → Option A
  lookup k [] = none
  lookup k ((j, c) ∷ m) = if text_eq j k then some c else lookup k m

  unfoldable pub insert : Text → A → List (Text × A) → List (Text × A)
  insert k v [] = (k, v) ∷ []
  insert k v ((j, c) ∷ m) = if text_eq j k then (k, v) ∷ m else (j, c) ∷ insert k v m

  pub lookup-insert :
      (k n : Text) (v : A) (m : List (Text × A))
      → lookup n (insert k v m) ≡ (if text_eq k n then some v else lookup n m)
  unfolding lookup insert
  lookup-insert k n v [] = refl
  lookup-insert k n v ((j, w) ∷ m) =
      ground (arith, lookup-insert k n v m, text_eq_iff j k, text_eq_iff k n, text_eq_iff j n)
