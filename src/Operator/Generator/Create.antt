-- ===== src/Operator/Generator/Create.antt =====
-- sargenerator.go: the stateful set that is made for new runners. Its labels are the runner's own map,
-- in which the label `app` is set; that the runner then has this label too is not seen here.
use github_runner_autoscaler.Common.{Option, some, List, [], ◌∷◌, Text, codes}
use github_runner_autoscaler.Common.Dict.{insert}
use github_runner_autoscaler.Operator.Resource.{
  Kubernetes, StringMap, EnvVar, ScaledActionRunner, or_empty, ◌>>=◌,
}
use github_runner_autoscaler.Operator.Generator.{
  StatefulSet, annotation_secrets_hash, get_volumes, env_to_set, set_env,
}

abbrev pub copy_config_cmd : Text
copy_config_cmd =
    codes
      "HOST=$(hostname); cp /actions-creds/$HOST/.runner /actions-creds/$HOST/.credentials /actions-creds/$HOST/.credentials_rsaparams /actions-runner/ -vfL"

module _ (K : Kubernetes) (order : List (Text × EnvVar K) → List (Text × EnvVar K)) where
  -- `none` is a panic.
  unfoldable pub generate_stateful_set : ScaledActionRunner K → Text → Option (StatefulSet K)
  unfolding insert set_env env_to_set get_volumes
  generate_stateful_set c secrets_hash = do
    runner ← c.spec.runner
    claim ← runner.work_volume_claim_template
    requests ← runner.requests
    limits ← runner.limits
    mount ← runner.mount_docker_sock
    let labels : StringMap = some (insert (codes "app") (codes "action-runner") (or_empty c.labels))
    some (record {
      name = c.name;
      namespace = c.namespace;
      labels = labels;
      annotations = some ((annotation_secrets_hash, secrets_hash) ∷ []);
      replicas = some c.spec.min_runners;
      match_labels = labels;
      template_labels = labels;
      template_annotations = runner.annotations;
      node_selector = runner.node_selector;
      tolerations = runner.tolerations;
      service_account_name = runner.service_account_name;
      volumes = some (get_volumes K c mount).0;
      containers =
          record {
            name = codes "runner";
            image = runner.image;
            env = (set_env K order (env_to_set K c runner) []).0;
            volume_mounts = some (get_volumes K c mount).1;
            requests = requests;
            limits = limits;
            post_start = codes "/bin/bash" ∷ codes "-c" ∷ copy_config_cmd ∷ [];
          }
          ∷ [];
      volume_claim_templates = record { name = codes "workdir"; spec = claim } ∷ [];
    })
