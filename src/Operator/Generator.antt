-- ===== src/Operator/Generator.antt =====
-- operator/sargenerator/sargenerator.go: the volumes and the variables of the stateful set of a set of
-- runners.
pub mod Volumes
pub mod Create
pub mod Env
use github_runner_autoscaler.Common.{
  ℕ, zero, suc, ◌+◌, ◌≡◌, Bool, true, false, ◌&&◌, ◌||◌, not, Option, none, some, List, [], ◌∷◌,
  ◌++◌, map, keep, Text, codes, text_eq, ◌==◌, if◌then◌else◌,
}
use github_runner_autoscaler.Common.Int.{ℤ, pos_part}
use github_runner_autoscaler.Common.Dict.{lookup, insert}
use github_runner_autoscaler.AddRunner.Encoding.{decimal}
use github_runner_autoscaler.Operator.Resource.{
  Kubernetes, StringMap, ResourceList, EnvVar, Runner, ScaledActionRunner, or_empty, ◌>>=◌,
}

-- `other` stands for the sources that the operator does not write.
pub data VolumeSource (K : Kubernetes) : Type 0 where
  host_path : Text → Text → VolumeSource K
  secret : Text → ℕ → VolumeSource K
  other : K.VolumeSource → VolumeSource K

pub record Volume (K : Kubernetes) : Type 0 where
  pub name : Text
  pub source : VolumeSource K

pub record VolumeMount : Type 0 where
  pub name : Text
  pub read_only : Bool
  pub mount_path : Text

pub record Container (K : Kubernetes) : Type 0 where
  pub name : Text
  pub image : Text
  pub env : List (EnvVar K)
  pub volume_mounts : Option (List VolumeMount)
  pub requests : ResourceList K
  pub limits : ResourceList K
  pub post_start : List Text

pub record ClaimTemplate (K : Kubernetes) : Type 0 where
  pub name : Text
  pub spec : K.Claim

pub record StatefulSet (K : Kubernetes) : Type 0 where
  pub name : Text
  pub namespace : Text
  pub labels : StringMap
  pub annotations : StringMap
  pub replicas : Option ℤ
  pub match_labels : StringMap
  pub template_labels : StringMap
  pub template_annotations : StringMap
  pub node_selector : StringMap
  pub tolerations : Option (List K.Toleration)
  pub service_account_name : Text
  pub volumes : Option (List (Volume K))
  pub containers : List (Container K)
  pub volume_claim_templates : List (ClaimTemplate K)

abbrev pub annotation_secrets_hash : Text
annotation_secrets_hash = codes "runner-secrets-hash"

-- `delete(m, k)`
unfoldable pub delete : {A : Type 0} → Text → List (Text × A) → List (Text × A)
delete k m = keep (λ (j, _). not (text_eq j k)) m

module _ (K : Kubernetes) where
  abbrev pub runner_volume : Text → Text → Volume K
  runner_volume name secret_name = record { name = name; source = secret secret_name 420 }

  abbrev pub runner_mount : Text → VolumeMount
  runner_mount name = record {
    name = name;
    read_only = true;
    mount_path = codes "/actions-creds/" ++ name;
  }

  -- The loop of `GetVolumes` from the index `i` on, with so many rounds left and the secrets from `i`.
  unfoldable pub secret_volumes : Text → ℕ → ℕ → List Text → List (Volume K)
  secret_volumes name i zero secrets = []
  secret_volumes name i (suc rounds) [] = []
  secret_volumes name i (suc rounds) (s ∷ secrets) =
      runner_volume (name ++ (b'-' ∷ decimal i)) s ∷ secret_volumes name (suc i) rounds secrets

  unfoldable pub secret_mounts : Text → ℕ → ℕ → List Text → List VolumeMount
  secret_mounts name i zero secrets = []
  secret_mounts name i (suc rounds) [] = []
  secret_mounts name i (suc rounds) (s ∷ secrets) =
      runner_mount (name ++ (b'-' ∷ decimal i)) ∷ secret_mounts name (suc i) rounds secrets

  abbrev pub socket_volume : Bool → List (Volume K)
  socket_volume false = []
  socket_volume true =
      record { name = codes "dockersock"; source = host_path (codes "/var/run/docker.sock") [] }
      ∷ []

  abbrev pub socket_mount : Bool → List VolumeMount
  socket_mount false = []
  socket_mount true =
      record {
        name = codes "dockersock";
        read_only = false;
        mount_path = codes "/var/run/docker.sock";
      }
      ∷ []

  abbrev pub workdir_mount : VolumeMount
  workdir_mount = record {
    name = codes "workdir";
    read_only = false;
    mount_path = codes "/actions-runner/_work";
  }

  -- `GetVolumes`, with what `MountDockerSock` points to.
  unfoldable pub get_volumes : ScaledActionRunner K → Bool → List (Volume K) × List VolumeMount
  unfolding secret_volumes secret_mounts
  get_volumes c mount =
      let rounds = pos_part c.spec.max_runners in
      (
        socket_volume mount ++ secret_volumes c.name 0 rounds c.spec.runner_secrets,
        workdir_mount ∷ socket_mount mount ++ secret_mounts c.name 0 rounds c.spec.runner_secrets,
      )

  abbrev pub EnvMap : Type 0
  EnvMap = List (Text × EnvVar K)

  abbrev pub env_value : Text → Text → EnvVar K
  env_value name value = record { name = name; value = value; value_from = none }

  abbrev pub set_all : List (EnvVar K) → EnvMap → EnvMap
  set_all [] m = m
  set_all (e ∷ es) m = set_all es (insert e.name e m)

  abbrev pub labels_env : Text → EnvMap → EnvMap
  labels_env [] m = m
  labels_env (c ∷ s) m = insert (codes "LABELS") (env_value (codes "LABELS") (c ∷ s)) m

  -- The map `toSet`.
  unfoldable pub env_to_set : ScaledActionRunner K → Runner K → EnvMap
  unfolding insert
  env_to_set c r = labels_env r.runner_labels (
      set_all r.env (
        (
          codes "REPO_URL",
          env_value (codes "REPO_URL")
              (codes "git@github.com:" ++ c.spec.owner ++ (b'/' ∷ c.spec.repo) ++ codes ".git"),
        )
        ∷ (
          codes "RUNNER_NAME",
          record {
            name = codes "RUNNER_NAME";
            value = [];
            value_from = some (K.field_ref (codes "v1") (codes "metadata.name"));
          },
        )
        ∷ (
          codes "RUNNER_WORKDIR",
          env_value (codes "RUNNER_WORKDIR") (codes "/actions-runner/_work"),
        )
        ∷ (
          codes "DISABLE_AUTOMATIC_DEREGISTRATION",
          env_value (codes "DISABLE_AUTOMATIC_DEREGISTRATION") (codes "true"),
        )
        ∷ []))

  abbrev pub source_equal : Option K.EnvVarSource → Option K.EnvVarSource → Bool
  source_equal none none = true
  source_equal (some s) (some t) = K.source_same s t
  source_equal _ _ = false

  abbrev pub env_same : EnvVar K → EnvVar K → Bool
  env_same e f =
      text_eq e.name f.name && text_eq e.value f.value && source_equal e.value_from f.value_from

  -- What the visit of the variables of a container leaves: the variables, the rest of `toSet`, and
  -- whether something was replaced.
  pub record Visited : Type 0 where
    pub env : List (EnvVar K)
    pub left : List (Text × EnvVar K)
    pub modified : Bool

  unfoldable pub visit_env : List (EnvVar K) → EnvMap → Visited
  unfolding lookup delete
  visit_env [] m = record { env = []; left = m; modified = false }
  visit_env (e ∷ es) m = elim (lookup e.name m) [
    | none ↦
        let v = visit_env es m in record { env = e ∷ v.env; left = v.left; modified = v.modified }
    | some new ↦
        let v = visit_env es (delete e.name m) in
        if env_same e new
        then record { env = e ∷ v.env; left = v.left; modified = v.modified }
        else record { env = new ∷ v.env; left = v.left; modified = true }
  ]

  abbrev pub is_empty : {A : Type 0} → List A → Bool
  is_empty [] = true
  is_empty (_ ∷ _) = false

  -- The variables that `SetEnvVars` leaves in a container, and its result; `order` lists the entries
  -- of a map as a range over it does.
  unfoldable pub set_env : (EnvMap → EnvMap) → EnvMap → List (EnvVar K) → List (EnvVar K) × Bool
  unfolding visit_env
  set_env order m env =
      let v = visit_env env m in
      (v.env ++ map (λ (_, e). e) (order v.left), v.modified || not (is_empty v.left))
