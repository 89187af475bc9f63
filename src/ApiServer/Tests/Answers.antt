-- ===== src/ApiServer/Tests/Answers.antt =====
-- The labels of runs, the configurations and the flags: witnesses and tests.
use github_runner_autoscaler.Common.{
  ◌≡◌, ◌⊎◌, ◌↔◌, refl, if◌then◌else◌, Bool, true, false, none, some, [], ◌∷◌, codes, keep, ok, err,
}
use github_runner_autoscaler.Common.Dict.{lookup}
use github_runner_autoscaler.Common.Int.{pos}
use github_runner_autoscaler.AddRunner.Resources.{selector_key}
use github_runner_autoscaler.ApiServer.State.{WorkflowInfo, WorkflowInfos}
use github_runner_autoscaler.ApiServer.GithubClient.{contains_str}
use github_runner_autoscaler.ApiServer.Config.{Flags, ServerConfig, setup_config}
use github_runner_autoscaler.ApiServer.Config.Laws.{IsEither, setup_config_iff}
use github_runner_autoscaler.ApiServer.Workflows.{
  Crd, Kubernetes, copy_all_workflows, get_workflow, client_namespaces,
}
use github_runner_autoscaler.ApiServer.Workflows.Laws.{
  named, loaded, listed, found, AllLoad, SomeFails, get_workflow-copy_all, get_workflow-list_failed,
}
use github_runner_autoscaler.ApiServer.Labeling.{
  Labels, Matched, labels_of, find_info, filter_by_selector, sanitize_label_value,
}
use github_runner_autoscaler.ApiServer.Labeling.Matching.{
  lookup-selector_key, filter_by_selector_lem, run_matches, Describes,
}
use github_runner_autoscaler.ApiServer.Tests.Data.{
  whole, waiting_run, core, log_store, log_store_laws,
}

abbrev main_info : WorkflowInfo
main_info = record { id = pos 7; name = codes "main"; labels = codes "deploy" ∷ [] }

abbrev main_infos : WorkflowInfos
main_infos = (pos 7, main_info) ∷ []

lookup-selector_key_example :
    (lbls : Labels) × (labels_of whole waiting_run core main_infos ≡ some lbls)
    × (lookup (selector_key (codes "deploy")) lbls ≡ (
        if contains_str (codes "deploy" ∷ []) (codes "deploy")
        then some (codes "deploy")
        else none))
unfolding find_info
lookup-selector_key_example =
    lookup-selector_key whole core main_infos waiting_run (pos 7) main_info (codes "deploy") refl
      refl refl

abbrev wants_deploy : Labels → Bool
wants_deploy lbls = elim (lookup (codes "wf_runs_on_deploy") lbls) [ none ↦ false | some _ ↦ true ]

filter_by_selector_lem_example :
    (m : Matched) × (filter_by_selector whole core main_infos wants_deploy (waiting_run ∷ [])
      ≡ some (keep (run_matches whole core main_infos wants_deploy) (waiting_run ∷ []), m))
    × Describes whole core main_infos
        (keep (run_matches whole core main_infos wants_deploy) (waiting_run ∷ []))
        m
filter_by_selector_lem_example =
    filter_by_selector_lem whole core main_infos wants_deploy (waiting_run ∷ []) ((pos 7, refl), tt)

sanitize_label_value_runs : sanitize_label_value (codes "$a$B_") ≡ codes "a_B"
unfolding sanitize_label_value
sanitize_label_value_runs = refl

-- A cluster whose API does not answer.
abbrev silent : Kubernetes
silent = record { secret = λ _ _. err (codes "timeout"); runners = λ _. err (codes "timeout") }

get_workflow-list_failed_example :
    get_workflow whole log_store
      (codes "core")
      (copy_all_workflows whole log_store silent (λ _. 0) [] (codes "runners" ∷ []) (core ∷ []))
    ≡ ok none
unfolding client_namespaces
get_workflow-list_failed_example =
    get_workflow-list_failed whole log_store log_store_laws silent (λ _. 0) []
      (codes "runners" ∷ []) (codes "core") (core ∷ []) ((codes "timeout", refl), tt)

-- A cluster with a runner whose token cannot be read.
abbrev broken : Crd
broken = record {
  name = codes "core";
  namespace = codes "runners";
  spec = record {
    min_runners = pos 0;
    max_runners = pos 1;
    scale_factor = none;
    force_scale_up_window = none;
    force_scale_up_frequency = none;
    github_token_secret = codes "token";
    owner = codes "me";
    repo = codes "app";
  };
}

abbrev partial : Kubernetes
partial = record { secret = λ _ _. err (codes "timeout"); runners = λ _. ok (broken ∷ []) }

-- The runner that does not load is found as it was before.
abbrev IsAnswered : Type 0
IsAnswered =
    let runners =
      listed whole log_store log_store_laws partial (λ _. 0) [] (codes "runners" ∷ [])
        (codes "core") (core ∷ []) in
    let cached = loaded whole log_store log_store_laws partial (λ _. 0) [] 0 runners in
    let answer =
      found whole log_store log_store_laws partial (λ _. 0) [] (codes "runners" ∷ []) (codes "core")
        (core ∷ []) in
    (AllLoad whole log_store log_store_laws partial (λ _. 0) [] 0 runners
      × (answer ≡ ok (named (codes "core") cached none)))
    ⊎ (SomeFails whole log_store log_store_laws partial (λ _. 0) [] 0 runners
        × (answer
            ≡ ok (
                named (codes "core") cached
                  (log_store.get_by_key (codes "core") (core ∷ [])).item)))

get_workflow-copy_all_example : IsAnswered
get_workflow-copy_all_example =
    get_workflow-copy_all whole log_store log_store_laws partial (λ _. 0) [] (codes "runners" ∷ [])
      (codes "core") (core ∷ [])

-- Two namespaces that were given with one flag stay one.
abbrev flags : Flags
flags = record {
  memcached_servers = [];
  memcached_user = [];
  memcached_pass = [];
  cache_window = some (codes "1m");
  cache_window_when_empty = none;
  resync_interval = none;
  kubeconfig = [];
  github_pat_namespace = none;
  runner_namespaces = codes "a,b" ∷ [];
  all_ns = false;
  in_cluster_config = true;
}

abbrev zero_config : ServerConfig
zero_config = record {
  cache_window = pos 0;
  cache_window_when_empty = pos 0;
  resync_interval = pos 0;
  memcached_servers = [];
  memcached_user = [];
  memcached_pass = [];
  github_pat_namespace = [];
  all_ns = false;
  in_cluster_config = false;
  kubeconfig = [];
  runner_namespaces = [];
}

setup_config_iff_example :
    ((r : ServerConfig) × (setup_config (λ _. some (pos 60)) flags zero_config ≡ ok r)
      × (r.runner_namespaces ≡ codes "a,b" ∷ []))
    ↔ IsEither flags
setup_config_iff_example = setup_config_iff (λ _. some (pos 60)) flags zero_config
