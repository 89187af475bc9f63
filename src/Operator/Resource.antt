-- ===== src/Operator/Resource.antt =====
-- operator/api/v1alpha1/scaledactionrunner_types.go: the resource of a set of runners and its
-- defaults, and the parts of Kubernetes' types that the operator reads or writes. A pointer, a slice
-- or a map that may be nil is an option, and a text is the list of the bytes of a Go string.
pub mod Defaults
use github_runner_autoscaler.Common.{
  ℕ, ◌*◌, ◌≡◌, Bool, true, false, ◌&&◌, Option, none, some, List, [], ◌∷◌, Text, codes, text_eq,
  all,
}
use github_runner_autoscaler.Common.Int.{ℤ, pos}
use github_runner_autoscaler.Common.Dict.{lookup}
use github_runner_autoscaler.ApiServer.Scaling.{minute, hour}

-- The types of Kubernetes' packages that are only handed on, and their functions: `claim_of` is a
-- PersistentVolumeClaimSpec with these access modes, this size and this volume mode, `equal` is
-- the method Equal of a quantity, `missing` the zero quantity, `field_ref` a reference to a field,
-- `advanced_of` an AdvancedConfig of KEDA. The `_same` are reflect.DeepEqual at these types.
pub record Kubernetes : Type 1 where
  pub Claim : Type 0
  pub Quantity : Type 0
  pub EnvVarSource : Type 0
  pub Toleration : Type 0
  pub Behavior : Type 0
  pub Advanced : Type 0
  pub VolumeSource : Type 0
  pub claim_of : Text → Quantity → Text → Claim
  pub set_volume_mode : Text → Claim → Claim
  pub must_parse : Text → Quantity
  pub missing : Quantity
  pub equal : Quantity → Quantity → Bool
  pub field_ref : Text → Text → EnvVarSource
  pub claim_same : Claim → Claim → Bool
  pub source_same : EnvVarSource → EnvVarSource → Bool
  pub toleration_same : Toleration → Toleration → Bool
  pub advanced_of : Behavior → Advanced
  pub advanced_same : Advanced → Advanced → Bool
  pub volume_same : VolumeSource → VolumeSource → Bool

-- A value is the same as itself.
pub record IsReflexive (K : Kubernetes) : Type 0 where
  pub equal_refl : (q : K.Quantity) → K.equal q q ≡ true
  pub claim_refl : (c : K.Claim) → K.claim_same c c ≡ true
  pub source_refl : (s : K.EnvVarSource) → K.source_same s s ≡ true
  pub toleration_refl : (t : K.Toleration) → K.toleration_same t t ≡ true
  pub advanced_refl : (a : K.Advanced) → K.advanced_same a a ≡ true
  pub volume_refl : (v : K.VolumeSource) → K.volume_same v v ≡ true

-- A map from texts, which may be nil.
abbrev pub StringMap : Type 0
StringMap = Option (List (Text × Text))

abbrev pub or_empty : {A : Type 0} → Option (List A) → List A
or_empty none = []
or_empty (some l) = l

-- What reading a missing key gives: the empty text.
abbrev pub get_text : Text → StringMap → Text
get_text key m = elim (lookup key (or_empty m)) [ none ↦ [] | some v ↦ v ]

abbrev pub ResourceList : Kubernetes → Type 0
ResourceList K = List (Text × K.Quantity)

pub record EnvVar (K : Kubernetes) : Type 0 where
  pub name : Text
  pub value : Text
  pub value_from : Option K.EnvVarSource

pub record Runner (K : Kubernetes) : Type 0 where
  pub image : Text
  pub runner_labels : Text
  pub annotations : StringMap
  pub node_selector : StringMap
  pub env : List (EnvVar K)
  pub work_volume_claim_template : Option K.Claim
  pub limits : Option (ResourceList K)
  pub requests : Option (ResourceList K)
  pub tolerations : Option (List K.Toleration)
  pub service_account_name : Text
  pub mount_docker_sock : Option Bool
  pub patch : Text

pub record Scaling (K : Kubernetes) : Type 0 where
  pub behavior : Option K.Behavior
  pub polling_interval : Option ℤ
  pub cooldown_period : Option ℤ

pub record ScaledActionRunnerSpec (K : Kubernetes) : Type 0 where
  pub max_runners : ℤ
  pub min_runners : ℤ
  pub runner_secrets : List Text
  pub github_token_secret : Text
  pub owner : Text
  pub repo : Text
  pub scaling : Option (Scaling K)
  pub scale_factor : Option Text
  pub metrics_selector : Option Text
  pub runner : Option (Runner K)
  pub force_scale_up_window : Option ℤ
  pub force_scale_up_frequency : Option ℤ

-- `labels` are those of the metadata, `referenced_secrets` those of the status.
pub record ScaledActionRunner (K : Kubernetes) : Type 0 where
  pub name : Text
  pub namespace : Text
  pub labels : StringMap
  pub spec : ScaledActionRunnerSpec K
  pub referenced_secrets : StringMap

-- A pointer that is dereferenced in a chain: the code panics where it is nil, which is `none`.
infixl 5 ◌>>=◌
abbrev pub ◌>>=◌ : {A B : Type 0} → Option A → (A → Option B) → Option B
none >>= f = none
some a >>= f = f a

abbrev pub or_else : {A : Type 0} → Option A → A → A
or_else none d = d
or_else (some a) d = a

abbrev pub or_text : Text → Text → Text
or_text [] d = d
or_text (c ∷ s) d = c ∷ s

module _ (K : Kubernetes) where
  open K use {claim_of, must_parse}

  abbrev pub empty_runner : Runner K
  empty_runner = record {
    image = [];
    runner_labels = [];
    annotations = none;
    node_selector = none;
    env = [];
    work_volume_claim_template = none;
    limits = none;
    requests = none;
    tolerations = none;
    service_account_name = [];
    mount_docker_sock = none;
    patch = [];
  }

  abbrev pub default_resources : Text → Text → ResourceList K
  default_resources cpu memory =
      (codes "cpu", must_parse cpu) ∷ (codes "memory", must_parse memory) ∷ []

  abbrev pub default_claim : K.Claim
  default_claim = claim_of (codes "ReadWriteOnce") (must_parse (codes "5Gi")) (codes "Filesystem")

  abbrev pub setup_runner : Runner K → Runner K
  setup_runner r = record r {
    image = or_text r.image (codes "myoung34/github-runner:latest");
    requests = some (or_else r.requests (default_resources (codes "200m") (codes "200Mi")));
    limits = some (or_else r.limits (default_resources (codes "2000m") (codes "2000Mi")));
    work_volume_claim_template = some (or_else r.work_volume_claim_template default_claim);
    service_account_name = or_text r.service_account_name (codes "default");
    mount_docker_sock = some (or_else r.mount_docker_sock true);
  }

  unfoldable pub setup : ScaledActionRunner K → ScaledActionRunner K
  setup sr = record sr {
    referenced_secrets = some (or_else sr.referenced_secrets []);
    spec = record sr.spec {
      runner = some (setup_runner (or_else sr.spec.runner empty_runner));
      scale_factor = some (or_else sr.spec.scale_factor (codes "0.8"));
      force_scale_up_frequency =
          some (or_else sr.spec.force_scale_up_frequency (pos (20 * 24 * hour)));
      force_scale_up_window = some (or_else sr.spec.force_scale_up_window (pos (20 * minute)));
    };
  }
