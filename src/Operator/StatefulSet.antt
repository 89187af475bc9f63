-- ===== src/Operator/StatefulSet.antt =====
-- operator/controllers/scaledactionrunner_controller.go: how an existing stateful set is brought to
-- what the runners ask for.
pub mod Again
pub mod Created
pub mod Resources
use github_runner_autoscaler.Common.{
  ℕ, ◌≡◌, Bool, true, false, ◌&&◌, ◌||◌, not, Option, none, some, List, [], ◌∷◌, ◌++◌, Text, codes,
  text_eq, all, ◌==◌, if◌then◌else◌,
}
use github_runner_autoscaler.Common.Int.{ℤ, eqb_ℤ}
use github_runner_autoscaler.Common.Dict.{lookup, insert}
use github_runner_autoscaler.Operator.Resource.{
  Kubernetes, StringMap, ResourceList, EnvVar, Runner, ScaledActionRunner, or_empty, get_text,
  or_else, ◌>>=◌,
}
use github_runner_autoscaler.Operator.Generator.{
  VolumeSource, host_path, secret, other, Volume, VolumeMount, Container, ClaimTemplate,
  StatefulSet, annotation_secrets_hash, get_volumes, env_to_set, set_env,
}

-- reflect.DeepEqual, which tells a nil pointer, slice or map from an empty one.
abbrev pub option_same : {A : Type 0} → (A → A → Bool) → Option A → Option A → Bool
option_same same none none = true
option_same same (some a) (some b) = same a b
option_same same _ _ = false

abbrev pub list_same : {A : Type 0} → (A → A → Bool) → List A → List A → Bool
list_same same [] [] = true
list_same same (a ∷ l) (b ∷ m) = same a b && list_same same l m
list_same same _ _ = false

-- Each entry of the one map is in the other.
abbrev pub map_within : List (Text × Text) → List (Text × Text) → Bool
map_within m n = all (λ (k, _). option_same text_eq (lookup k m) (lookup k n)) m

abbrev pub map_same : List (Text × Text) → List (Text × Text) → Bool
map_same m n = map_within m n && map_within n m

abbrev pub mount_same : VolumeMount → VolumeMount → Bool
mount_same m n =
    text_eq m.name n.name
    && (if m.read_only then n.read_only else not n.read_only)
    && text_eq m.mount_path n.mount_path

module _ (K : Kubernetes) where
  abbrev pub source_same : VolumeSource K → VolumeSource K → Bool
  source_same (host_path p t) (host_path q u) = text_eq p q && text_eq t u
  source_same (secret s m) (secret t n) = text_eq s t && m == n
  source_same (other s) (other t) = K.volume_same s t
  source_same _ _ = false

  abbrev pub volume_same : Volume K → Volume K → Bool
  volume_same v w = text_eq v.name w.name && source_same v.source w.source

  -- The quantity of a resource, as the map is read.
  abbrev pub quantity : Text → ResourceList K → K.Quantity
  quantity key l = or_else (lookup key l) K.missing

  abbrev pub resources_equal : ResourceList K → ResourceList K → Bool
  resources_equal l m =
      K.equal (quantity (codes "cpu") l) (quantity (codes "cpu") m)
      && K.equal (quantity (codes "memory") l) (quantity (codes "memory") m)

  -- A field that is assigned where the test finds it different, and whether it was.
  abbrev pub sync : {A : Type 0} → (A → A → Bool) → A → A → A
  sync same old new = if same old new then old else new

  -- What the code dereferences or indexes; it panics if something of that is missing.
  pub record Parts : Type 0 where
    pub runner : Runner K
    pub claim : K.Claim
    pub requests : ResourceList K
    pub limits : ResourceList K
    pub mount : Bool
    pub container : Container K
    pub containers : List (Container K)
    pub template : ClaimTemplate K
    pub templates : List (ClaimTemplate K)

  abbrev pub uncons : {A : Type 0} → List A → Option (A × List A)
  uncons [] = none
  uncons (a ∷ l) = some (a, l)

  abbrev pub parts_of : StatefulSet K → ScaledActionRunner K → Option Parts
  parts_of old config = do
    runner ← config.spec.runner
    claim ← runner.work_volume_claim_template
    requests ← runner.requests
    limits ← runner.limits
    mount ← runner.mount_docker_sock
    (container, containers) ← uncons old.containers
    (template, templates) ← uncons old.volume_claim_templates
    some (record {
      runner = runner;
      claim = claim;
      requests = requests;
      limits = limits;
      mount = mount;
      container = container;
      containers = containers;
      template = template;
      templates = templates;
    })

  -- The claim templates, and whether they were replaced.
  abbrev pub sync_templates :
      K.Claim → ClaimTemplate K → List (ClaimTemplate K) → List (ClaimTemplate K) × Bool
  sync_templates claim template templates =
      if K.claim_same template.spec claim
      then (template ∷ templates, false)
      else let filled = K.set_volume_mode (codes "Filesystem") template.spec in
        if K.claim_same filled claim
        then (record template { spec = filled } ∷ templates, false)
        else (record template { spec = claim } ∷ [], true)

  abbrev pub sync_annotations : StringMap → Text → StringMap
  sync_annotations annotations hash =
      if text_eq (get_text annotation_secrets_hash annotations) hash
      then some (or_empty annotations)
      else some (insert annotation_secrets_hash hash (or_empty annotations))

  module _ (order : List (Text × EnvVar K) → List (Text × EnvVar K)) where
    -- `updatedSs` at the end of `getScaledSetUpdates`.
    unfoldable pub updated_set : Parts → StatefulSet K → ScaledActionRunner K → Text → StatefulSet K
    unfolding insert set_env env_to_set get_volumes
    updated_set p old config hash =
        let (volumes, mounts) = get_volumes K config p.mount in
        record old {
          name = sync text_eq old.name config.name;
          namespace = sync text_eq old.namespace config.namespace;
          annotations = sync_annotations old.annotations hash;
          template_annotations = p.runner.annotations;
          node_selector = p.runner.node_selector;
          tolerations = p.runner.tolerations;
          service_account_name =
              sync text_eq old.service_account_name p.runner.service_account_name;
          volumes = sync (option_same (list_same volume_same)) old.volumes (some volumes);
          volume_claim_templates = (sync_templates p.claim p.template p.templates).0;
          containers =
              record p.container {
                image = sync text_eq p.container.image p.runner.image;
                env = (set_env K order (env_to_set K config p.runner) p.container.env).0;
                volume_mounts =
                    sync (option_same (list_same mount_same)) p.container.volume_mounts
                      (some mounts);
                requests = p.requests;
                limits = p.limits;
              }
              ∷ p.containers;
        }

    -- What the flag `updated` says at the end.
    unfoldable pub is_current : Parts → StatefulSet K → ScaledActionRunner K → Text → Bool
    unfolding lookup set_env env_to_set get_volumes
    is_current p old config hash =
        let (volumes, mounts) = get_volumes K config p.mount in
        text_eq old.name config.name
        && text_eq old.namespace config.namespace
        && text_eq (get_text annotation_secrets_hash old.annotations) hash
        && text_eq p.container.image p.runner.image
        && not (sync_templates p.claim p.template p.templates).1
        && not (set_env K order (env_to_set K config p.runner) p.container.env).1
        && option_same (list_same volume_same) old.volumes (some volumes)
        && option_same (list_same mount_same) p.container.volume_mounts (some mounts)
        && resources_equal p.container.requests p.requests
        && resources_equal p.container.limits p.limits
        && option_same map_same old.template_annotations p.runner.annotations
        && option_same map_same old.node_selector p.runner.node_selector
        && option_same (list_same K.toleration_same) old.tolerations p.runner.tolerations
        && text_eq old.service_account_name p.runner.service_account_name

    -- A panic is `none`; a nil result is `some none`.
    unfoldable pub get_scaled_set_updates :
        StatefulSet K → ScaledActionRunner K → Text → Option (Option (StatefulSet K))
    unfolding updated_set is_current
    get_scaled_set_updates old config hash = do
      p ← parts_of old config
      some (if is_current p old config hash then none else some (updated_set p old config hash))
