-- ===== src/Operator/Tests.antt =====
-- The operator: witnesses and tests, with texts in place of the types of Kubernetes' packages.
mod Examples
use github_runner_autoscaler.Common.{
  ℕ, ◌≡◌, refl, ◌∙◌, Bool, true, false, Option, none, some, Bool-cases, inl, inr, List, [], ◌∷◌,
  ◌++◌, map, Text, codes, text_eq, text_eq_refl, if◌then◌else◌, arith, Result, ok, err, All,
}
use github_runner_autoscaler.Common.Int.{pos}
use github_runner_autoscaler.Common.Dict.{lookup}
use github_runner_autoscaler.AddRunner.Config.{Config}
use github_runner_autoscaler.AddRunner.Resources.{
  RunnerCreds, generate_scaled_action_runner, runner_secrets_from,
}
use github_runner_autoscaler.Operator.Resource.{
  Kubernetes, IsReflexive, EnvVar, Runner, ResourceList, ScaledActionRunner, default_resources,
  empty_runner, or_else, setup, setup_runner,
}
use github_runner_autoscaler.Operator.Generator.{
  Container, ClaimTemplate, StatefulSet, delete, get_volumes, socket_volume, socket_mount,
  runner_volume, runner_mount, workdir_mount,
}
use github_runner_autoscaler.Operator.Generator.Env.{HasKeysOnce, IsSameMap, IsRange, lookup-delete}
use github_runner_autoscaler.Operator.Generator.Volumes.{get_volumes-written}
use github_runner_autoscaler.Operator.StatefulSet.{get_scaled_set_updates}
use github_runner_autoscaler.Operator.StatefulSet.Again.{get_scaled_set_updates-again}
use github_runner_autoscaler.Operator.StatefulSet.Resources.{
  asking, get_scaled_set_updates-same_size,
}
use github_runner_autoscaler.AddRunner.Encoding.RoundTrip.{IsByte, decode64}
use mathlib.Core.Path.{subst}
use github_runner_autoscaler.Operator.SecretsHash.{get_secrets_hash}
use github_runner_autoscaler.Operator.SecretsHash.Reading.{ReadsBytes, get_secrets_hash-reveals}
use github_runner_autoscaler.Operator.ScaledObject.{
  ScaledObject, empty_spec, assign_scaled_object_props,
}
use github_runner_autoscaler.Operator.ScaledObject.Again.{assign_scaled_object_props-again}

abbrev texts : Kubernetes
texts = record {
  Claim = Text;
  Quantity = Text;
  EnvVarSource = Text;
  Toleration = Text;
  Behavior = Text;
  Advanced = Text;
  VolumeSource = Text;
  claim_of = λ modes size mode. modes ++ size ++ mode;
  set_volume_mode = λ mode claim. claim ++ mode;
  must_parse = λ t. t;
  missing = [];
  equal = text_eq;
  field_ref = λ version path. version ++ path;
  claim_same = text_eq;
  source_same = text_eq;
  toleration_same = text_eq;
  advanced_of = λ b. b;
  advanced_same = text_eq;
  volume_same = text_eq;
}

texts-IsReflexive : IsReflexive texts
texts-IsReflexive = record {
  equal_refl = text_eq_refl;
  claim_refl = text_eq_refl;
  source_refl = text_eq_refl;
  toleration_refl = text_eq_refl;
  advanced_refl = text_eq_refl;
  volume_refl = text_eq_refl;
}

-- A range in the order of insertion, over the first entries of each key.
unfoldable in_order : List (Text × EnvVar texts) → List (Text × EnvVar texts)
in_order [] = []
in_order ((k, e) ∷ m) = let rest = in_order m in (k, e) ∷ delete k rest

either_none : (b : Bool) → Path (Option (EnvVar texts)) (if b then none else none) none
either_none true = refl
either_none false = refl

delete-HasKeysOnce :
    (k : Text) (m : List (Text × EnvVar texts)) → HasKeysOnce m → HasKeysOnce (delete k m)
unfolding HasKeysOnce delete
delete-HasKeysOnce k [] h = tt
delete-HasKeysOnce k ((j, e) ∷ m) (h, hs) = elim (Bool-cases (text_eq j k)) [
  | inl same ↦ rw same (delete-HasKeysOnce k m hs)
  | inr differs ↦
      rw differs (lookup-delete k j m ∙ rw h (either_none (text_eq k j)), delete-HasKeysOnce k m hs)
]

in_order-HasKeysOnce : (m : List (Text × EnvVar texts)) → HasKeysOnce (in_order m)
unfolding HasKeysOnce in_order
in_order-HasKeysOnce [] = tt
in_order-HasKeysOnce ((k, e) ∷ m) = (
  lookup-delete k k (in_order m) ∙ rw (text_eq_refl k) refl,
  delete-HasKeysOnce k (in_order m) (in_order-HasKeysOnce m),
)

in_order-IsSameMap : (m : List (Text × EnvVar texts)) → IsSameMap (in_order m) m
unfolding in_order lookup
in_order-IsSameMap [] n = refl
in_order-IsSameMap ((k, e) ∷ m) n = elim (Bool-cases (text_eq k n)) [
  | inl same ↦ rw same refl
  | inr differs ↦ rw differs (lookup-delete k n (in_order m) ∙ rw differs (in_order-IsSameMap m n))
]

in_order-IsRange : IsRange in_order
in_order-IsRange m = (in_order-HasKeysOnce m, in_order-IsSameMap m)
