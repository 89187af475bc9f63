-- ===== src/Operator/Tests/Examples.antt =====
-- The operator: witnesses, on the resource that the command writes for a small configuration.
use github_runner_autoscaler.Common.{
  ℕ, ◌≡◌, refl, Bool, true, false, Option, none, some, List, [], ◌∷◌, ◌++◌, map, Text, codes, arith,
  Result, ok, err, All,
}
use github_runner_autoscaler.Common.Int.{pos}
use github_runner_autoscaler.Common.Dict.{lookup}
use github_runner_autoscaler.AddRunner.Config.{Config}
use github_runner_autoscaler.AddRunner.Resources.{
  RunnerCreds, generate_scaled_action_runner, runner_secrets_from,
}
use github_runner_autoscaler.Operator.Resource.{
  Runner, ResourceList, ScaledActionRunner, default_resources, empty_runner, or_else, setup,
  setup_runner,
}
use github_runner_autoscaler.Operator.Generator.{
  Container, ClaimTemplate, StatefulSet, get_volumes, socket_volume, socket_mount, runner_volume,
  runner_mount, workdir_mount,
}
use github_runner_autoscaler.Operator.Generator.Volumes.{get_volumes-written}
use github_runner_autoscaler.Operator.StatefulSet.{get_scaled_set_updates}
use github_runner_autoscaler.Operator.StatefulSet.Again.{get_scaled_set_updates-again}
use github_runner_autoscaler.Operator.StatefulSet.Resources.{
  asking, get_scaled_set_updates-same_size,
}
use github_runner_autoscaler.AddRunner.Encoding.RoundTrip.{IsByte, decode64}
use mathlib.Core.Path.{subst}
use github_runner_autoscaler.Operator.SecretsHash.{get_secrets_hash}
use github_runner_autoscaler.Operator.SecretsHash.Reading.{ReadsBytes, get_secrets_hash-reveals}
use github_runner_autoscaler.Operator.ScaledObject.{
  ScaledObject, empty_spec, assign_scaled_object_props,
}
use github_runner_autoscaler.Operator.ScaledObject.Again.{assign_scaled_object_props-again}
use github_runner_autoscaler.Operator.StatefulSet.Created.{generate_stateful_set-current}
use github_runner_autoscaler.Operator.Generator.Create.{generate_stateful_set}
use github_runner_autoscaler.Operator.Tests.{texts, texts-IsReflexive, in_order, in_order-IsRange}

abbrev accepted : Config
accepted = record {
  help = false;
  output = [];
  stateful_set_ns = codes "runners";
  github_pat_ns = none;
  labels = none;
  repo = codes "demo";
  owner = codes "devjoes";
  max_runners = 2;
  admin_pat = codes "pat";
  read_pat = codes "read";
  name = codes "ci";
}

abbrev creds : RunnerCreds
creds = record {
  credentials_rsaparams = codes "p";
  credentials = codes "c";
  runner = codes "r";
  private_key = codes "k";
  public_key = codes "q";
}

-- What the command wrote, as the cluster has it, without defaults.
abbrev written : ScaledActionRunner texts
written =
    let doc = generate_scaled_action_runner accepted in
    record {
      name = doc.name;
      namespace = doc.namespace;
      labels = none;
      referenced_secrets = none;
      spec = record {
        max_runners = pos doc.spec.max_runners;
        min_runners = pos 1;
        runner_secrets = doc.spec.runner_secrets;
        github_token_secret = doc.spec.github_token_secret;
        owner = doc.spec.owner;
        repo = doc.spec.repo;
        scaling = none;
        scale_factor = none;
        metrics_selector = doc.spec.selector;
        runner = none;
        force_scale_up_window = none;
        force_scale_up_frequency = none;
      };
    }

get_volumes-written_example :
    let names = map (λ s. s.name) (runner_secrets_from accepted 0 (creds ∷ creds ∷ [])) in
    get_volumes texts written true ≡ (
      socket_volume texts true ++ map (λ s. runner_volume texts s s) names,
      workdir_mount texts ∷ socket_mount texts true ++ map (runner_mount texts) names,
    )
get_volumes-written_example =
    get_volumes-written texts accepted (creds ∷ creds ∷ []) written true refl (refl, refl, refl)

-- A set that was made for an older image.
abbrev container : Container texts
container = record {
  name = codes "runner";
  image = codes "old";
  env = [];
  volume_mounts = none;
  requests = [];
  limits = [];
  post_start = [];
}

abbrev template : ClaimTemplate texts
template = record { name = codes "workdir"; spec = codes "1Gi" }

abbrev old_set : StatefulSet texts
old_set = record {
  name = written.name;
  namespace = written.namespace;
  labels = none;
  annotations = none;
  replicas = none;
  match_labels = none;
  template_labels = none;
  template_annotations = none;
  node_selector = none;
  tolerations = none;
  service_account_name = [];
  volumes = none;
  containers = container ∷ [];
  volume_claim_templates = template ∷ [];
}

abbrev updates : StatefulSet texts → Option (Option (StatefulSet texts))
updates old = get_scaled_set_updates texts in_order old (setup texts written) (codes "hash")

get_scaled_set_updates-again_example :
    (r : Option (StatefulSet texts)) × (updates old_set ≡ some r)
    × (updates (or_else r old_set) ≡ some none)
get_scaled_set_updates-again_example =
    get_scaled_set_updates-again texts texts-IsReflexive in_order in_order-IsRange written
      (codes "hash") old_set container [] template [] refl refl

abbrev new_object : ScaledObject texts
new_object = record { name = []; namespace = []; labels = none; spec = empty_spec texts }

assign_scaled_object_props-again_example :
    (new : ScaledObject texts) × (updated : Bool) × (assign_scaled_object_props texts new_object
        written
        (codes "url")
        (codes "auth")
      ≡ some (new, updated))
    × (assign_scaled_object_props texts new written (codes "url") (codes "auth")
        ≡ some (new, false))
assign_scaled_object_props-again_example =
    assign_scaled_object_props-again texts written (codes "url") (codes "auth") texts-IsReflexive
      new_object (λ t g gs e. ground (arith, e))

-- The set after its update, and runners that ask for a graphics card as well.
abbrev settled : StatefulSet texts
settled =
    or_else
      (get_scaled_set_updates-again texts texts-IsReflexive in_order in_order-IsRange written
        (codes "hash") old_set container [] template [] refl refl).0
      old_set

abbrev runner : Runner texts
runner = setup_runner texts (empty_runner texts)

abbrev with_card : ResourceList texts → ResourceList texts
with_card l = (codes "nvidia.com/gpu", codes "1") ∷ l

abbrev small : ResourceList texts
small = default_resources texts (codes "200m") (codes "200Mi")

abbrev large : ResourceList texts
large = default_resources texts (codes "2000m") (codes "2000Mi")

settled_current :
    get_scaled_set_updates texts in_order settled
      (asking texts runner small large (setup texts written))
      (codes "hash")
    ≡ some none
unfolding setup
settled_current =
    (get_scaled_set_updates-again texts texts-IsReflexive in_order in_order-IsRange written
      (codes "hash") old_set container [] template [] refl refl).2

get_scaled_set_updates-same_size_example :
    get_scaled_set_updates texts in_order settled
      (asking texts runner (with_card small) (with_card large) (setup texts written))
      (codes "hash")
    ≡ some none
unfolding lookup
get_scaled_set_updates-same_size_example =
    get_scaled_set_updates-same_size texts in_order settled (setup texts written) (codes "hash")
      runner small large (with_card small) (with_card large) (refl, refl) (refl, refl)
      settled_current

-- Every secret has no data, and the digest begins with these bytes.
abbrev read_empty : Text → Text → Result Text (List ℕ)
read_empty namespace name = ok (b'{' ∷ b'}' ∷ [])

abbrev digest : List ℕ
digest = 0xe3 ∷ 0xb0 ∷ []

abbrev HasBytes : Result Text (List ℕ) → Type 0
HasBytes (ok bytes) = All IsByte bytes
HasBytes (err e) = Unit

read_empty-ReadsBytes : ReadsBytes digest read_empty
read_empty-ReadsBytes ns n bytes e = subst HasBytes e (omega arith, (omega arith, tt))

get_secrets_hash-reveals_example :
    (hash : Text) × (rest : List ℕ) × (get_secrets_hash digest read_empty texts written
        (codes "api")
      ≡ ok hash)
    × (decode64 hash ≡ (b'{' ∷ b'}' ∷ []) ++ rest)
get_secrets_hash-reveals_example =
    get_secrets_hash-reveals digest read_empty read_empty-ReadsBytes
      (omega arith, (omega arith, tt)) texts written (codes "api") (b'{' ∷ b'}' ∷ []) refl

generate_stateful_set-current_example :
    (made : StatefulSet texts) × (generate_stateful_set texts in_order
        (setup texts written)
        (codes "hash")
      ≡ some made)
    × (updates made ≡ some none)
generate_stateful_set-current_example =
    generate_stateful_set-current texts texts-IsReflexive in_order in_order-IsRange written
      (codes "hash")
