-- ===== src/Operator/ScaledObject.antt =====
-- The scaled object of KEDA for a set of runners: how it is made (sargenerator.go), and how an existing
-- one is brought to what the runners ask for (operator/controllers/scaledactionrunner_controller.go).
pub mod Again
use github_runner_autoscaler.Common.{
  ℕ, ◌≡◌, Bool, true, false, ◌&&◌, not, Option, none, some, List, [], ◌∷◌, Text, codes, text_eq,
  if◌then◌else◌,
}
use github_runner_autoscaler.Common.Int.{ℤ, eqb_ℤ}
use github_runner_autoscaler.Common.Dict.{lookup, insert}
use github_runner_autoscaler.Operator.Resource.{
  Kubernetes, StringMap, Scaling, ScaledActionRunner, or_empty, get_text, ◌>>=◌,
}
use github_runner_autoscaler.Operator.StatefulSet.{option_same, list_same, map_same, sync, uncons}

pub record ScaleTarget : Type 0 where
  pub kind : Text
  pub name : Text
  pub api_version : Text

-- `authentication` is the name and the kind of the reference.
pub record Trigger : Type 0 where
  pub type_name : Text
  pub authentication : Option (Text × Text)
  pub metadata : StringMap

pub record ScaledObjectSpec (K : Kubernetes) : Type 0 where
  pub scale_target_ref : Option ScaleTarget
  pub polling_interval : Option ℤ
  pub cooldown_period : Option ℤ
  pub min_replica_count : Option ℤ
  pub max_replica_count : Option ℤ
  pub advanced : Option K.Advanced
  pub triggers : Option (List Trigger)

pub record ScaledObject (K : Kubernetes) : Type 0 where
  pub name : Text
  pub namespace : Text
  pub labels : StringMap
  pub spec : ScaledObjectSpec K

abbrev pub target_same : ScaleTarget → ScaleTarget → Bool
target_same s t =
    text_eq s.kind t.kind && text_eq s.name t.name && text_eq s.api_version t.api_version

abbrev pub reference_same : Text × Text → Text × Text → Bool
reference_same (n, k) (n', k') = text_eq n n' && text_eq k k'

abbrev pub trigger_same : Trigger → Trigger → Bool
trigger_same s t =
    text_eq s.type_name t.type_name
    && option_same reference_same s.authentication t.authentication
    && option_same map_same s.metadata t.metadata

-- The limits are compared before they are assigned.
abbrev pub sync_count : Option ℤ → ℤ → Option ℤ
sync_count none n = some n
sync_count (some m) n = if eqb_ℤ m n then some m else some n

-- `Metadata["url"] = metricsUrl`, which panics if the map is nil.
abbrev pub set_url : Text → StringMap → Option StringMap
set_url url m =
    if text_eq url (get_text (codes "url") m)
    then some m
    else (m >>= λ entries. some (some (insert (codes "url") url entries)))

module _ (K : Kubernetes) where
  abbrev pub with_behavior : Option K.Behavior → Option K.Advanced → Option K.Advanced
  with_behavior none a = a
  with_behavior (some b) a = some (K.advanced_of b)

  abbrev pub with_scaling : Option (Scaling K) → ScaledObjectSpec K → ScaledObjectSpec K
  with_scaling none spec = spec
  with_scaling (some s) spec = record spec {
    cooldown_period = s.cooldown_period;
    polling_interval = s.polling_interval;
    advanced = with_behavior s.behavior spec.advanced;
  }

  unfoldable pub update_scaled_object_spec :
      ScaledActionRunner K → Text → ScaledObjectSpec K → Text → ScaledObjectSpec K
  update_scaled_object_spec c url spec cluster_trigger = with_scaling c.spec.scaling (record spec {
    scale_target_ref =
        some (record { kind = codes "StatefulSet"; name = c.name; api_version = codes "apps/v1" });
    min_replica_count = some c.spec.min_runners;
    max_replica_count = some c.spec.max_runners;
    triggers = some (
        record {
          type_name = codes "metrics-api";
          authentication = some (cluster_trigger, codes "ClusterTriggerAuthentication");
          metadata = some (
              (codes "targetValue", codes "1")
              ∷ (codes "url", url)
              ∷ (codes "valueLocation", codes "items.0.value")
              ∷ (codes "authMode", codes "tls")
              ∷ []);
        }
        ∷ []);
  })

  abbrev pub empty_spec : ScaledObjectSpec K
  empty_spec = record {
    scale_target_ref = none;
    polling_interval = none;
    cooldown_period = none;
    min_replica_count = none;
    max_replica_count = none;
    advanced = none;
    triggers = none;
  }

  unfoldable pub generate_scaled_object : ScaledActionRunner K → Text → Text → ScaledObject K
  unfolding update_scaled_object_spec
  generate_scaled_object c url cluster_trigger = record {
    name = c.name;
    namespace = c.namespace;
    labels = some (or_empty c.labels);
    spec = update_scaled_object_spec c url empty_spec cluster_trigger;
  }

  abbrev pub spec_same : ScaledObjectSpec K → ScaledObjectSpec K → Bool
  spec_same s t =
      option_same target_same s.scale_target_ref t.scale_target_ref
      && option_same eqb_ℤ s.polling_interval t.polling_interval
      && option_same eqb_ℤ s.cooldown_period t.cooldown_period
      && option_same eqb_ℤ s.min_replica_count t.min_replica_count
      && option_same eqb_ℤ s.max_replica_count t.max_replica_count
      && option_same K.advanced_same s.advanced t.advanced
      && option_same (list_same trigger_same) s.triggers t.triggers

  -- The specification once the scaling and the limits are assigned.
  abbrev pub prepared : ScaledActionRunner K → ScaledObjectSpec K → ScaledObjectSpec K
  prepared c spec =
      let scaled = with_scaling c.spec.scaling spec in
      record scaled {
        min_replica_count = sync_count scaled.min_replica_count c.spec.min_runners;
        max_replica_count = sync_count scaled.max_replica_count c.spec.max_runners;
      }

  -- The target and the triggers that are there, unless one of them is missing.
  abbrev pub complete : ScaledObjectSpec K → Option (ScaleTarget × Trigger × List Trigger)
  complete spec = do
    target ← spec.scale_target_ref
    (trigger, triggers) ← uncons K (or_empty spec.triggers)
    some (target, trigger, triggers)

  -- The name of the target and the address of the metrics.
  abbrev pub addressed :
      ScaledActionRunner K → Text → ScaledObjectSpec K → Option (ScaledObjectSpec K)
  addressed c url spec = do
    (target, trigger, triggers) ← complete spec
    metadata ← set_url url trigger.metadata
    some (record spec {
      scale_target_ref = some (record target { name = sync K text_eq target.name c.name });
      triggers = some (record trigger { metadata = metadata } ∷ triggers);
    })

  abbrev pub or_generated :
      ScaledActionRunner K → Text → Text → ScaledObjectSpec K → ScaledObjectSpec K
  or_generated c url cluster_trigger spec = elim (complete spec) [
    | none ↦ (generate_scaled_object c url cluster_trigger).spec
    | some _ ↦ spec
  ]

  abbrev pub assigned :
      ScaledActionRunner K → ScaledObject K → ScaledObjectSpec K → ScaledObject K × Bool
  assigned c found spec =
      let same = spec_same spec found.spec in
      (
        record found {
          name = sync K text_eq found.name c.name;
          namespace = sync K text_eq found.namespace c.namespace;
          spec = if same then found.spec else spec;
        },
        not (text_eq found.name c.name && text_eq found.namespace c.namespace && same),
      )

  -- `assignScaledObjectPropsFromRunner`: the object, and whether it was changed; `none` is a panic.
  unfoldable pub assign_scaled_object_props :
      ScaledObject K → ScaledActionRunner K → Text → Text → Option (ScaledObject K × Bool)
  unfolding generate_scaled_object
  assign_scaled_object_props found c url cluster_trigger = do
    spec ← addressed c url (or_generated c url cluster_trigger (prepared c found.spec))
    some (assigned c found spec)
