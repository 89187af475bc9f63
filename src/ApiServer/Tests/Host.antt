-- ===== src/ApiServer/Tests/Host.antt =====
-- The host and the provider of metrics: witnesses and tests.
use github_runner_autoscaler.Common.{
  ℕ, zero, suc, ◌<◌, ◌≡◌, refl, Bool, true, none, some, List, [], ◌∷◌, Text, codes, ne_of_text_eq,
  Result, ok, err, arith,
}
use github_runner_autoscaler.Common.Dict.{lookup, insert}
use github_runner_autoscaler.Common.Int.{ℤ, pos, ◌+ℤ◌, ◌≤ℤ◌, int32_of, eqb_ℤ, eqb_ℤ_refl}
use github_runner_autoscaler.ApiServer.World.{World}
use github_runner_autoscaler.ApiServer.Scaling.{
  calculate_forced_scale, get_output, raw_output, bounded,
}
use github_runner_autoscaler.ApiServer.State.{
  ClientState, Memory, in_memory, new_client_state, StateProvider, WorkflowInfos,
}
use github_runner_autoscaler.ApiServer.Client.{
  Client, Queue, get_queued_jobs, get_workflow_info, get_state,
}
use github_runner_autoscaler.ApiServer.GithubClient.{
  new_github_client, stateless_client, fetch_queued_jobs, filter_jobs_by_status,
  get_remaining_credits_for_token, get_workflow_data, contains_str, sort_strings,
}
use github_runner_autoscaler.ApiServer.Workflows.{GithubWorkflowConfig, get_workflow}
use github_runner_autoscaler.ApiServer.Labeling.{Labels, filter_by_selector, get_labels_for_output}
use github_runner_autoscaler.AddRunner.Encoding.{decimal}
use github_runner_autoscaler.ApiServer.Host.{
  Host, get_client, query_workflow, query_metric, get_all_metric_names, connect_provider, warm_up,
  metric_not_found,
}
use github_runner_autoscaler.ApiServer.Host.Queries.{query_workflow-panics}
use github_runner_autoscaler.ApiServer.Host.Start.{
  after, Fails, nth_attempt, connect_provider-ok, warm_up-panics,
}
use github_runner_autoscaler.ApiServer.Provider.{
  Selector, MetricInfo, NamespacedName, MetricError, MetricValue, ScaledMetric, bad_request,
  value_for, get_metric_by_name, selector_for, get_metric_by_selector,
}
use github_runner_autoscaler.ApiServer.Provider.Queries.{
  value_for_bounds, get_metric_by_name-unknown, get_metric_by_selector-fails,
}
use github_runner_autoscaler.ApiServer.Tests.Data.{
  whole, linear, outside, waiting_run, world_of, core, host, empty_memory, sum224,
}

-- The runner of the tests, with a window for its forced scaling.
abbrev with_window : ℤ → GithubWorkflowConfig whole
with_window k = record core { scaling = record linear { force_scale_up_window = k } }

abbrev start : World Memory
start = world_of empty_memory

abbrev everything : Labels → Bool
everything _ = true

abbrev queue : Queue
queue = record { jobs = waiting_run ∷ []; retrieval_time = some (pos 100000); error = none }

module _ (k : ℤ) where
  abbrev client : Client Memory
  client = get_client whole outside sum224 host (with_window k)

  -- The steps of a query, with the worlds after them.
  fetched : (w : World Memory) × (get_queued_jobs client outside start ≡ some (queue, w))
  unfolding get_queued_jobs get_client in_memory lookup insert new_client_state stateless_client
      fetch_queued_jobs filter_jobs_by_status get_remaining_credits_for_token new_github_client
  fetched = (_, refl)

  known :
      (i : WorkflowInfos) × (w : World Memory) × (get_workflow_info client fetched.0
        ≡ some (ok i, w))
  unfolding get_workflow_info fetched get_client in_memory lookup insert stateless_client
      get_workflow_data new_github_client
  known = (_, _, refl)

  state_read : (s : ClientState) × (w : World Memory) × (get_state client known.1 ≡ some (ok s, w))
  unfolding get_state known get_client in_memory lookup insert new_client_state
  state_read = (_, _, refl)

query_workflow-panics_example :
    query_workflow whole outside sum224 host (with_window (pos 0)) (client (pos 0)) everything start
    ≡ none
unfolding state_read
query_workflow-panics_example =
    query_workflow-panics whole outside sum224 host (with_window (pos 0)) everything queue
      (known (pos 0)).0 (state_read (pos 0)).0 start (fetched (pos 0)).0 (known (pos 0)).1
      (state_read (pos 0)).1 (fetched (pos 0)).1 refl (known (pos 0)).2 (state_read (pos 0)).2 refl
      refl

-- A value that is served.
abbrev info : MetricInfo
info = record { resource = codes "scaledactionrunners"; metric = codes "*" }

abbrev core_name : NamespacedName
core_name = record { namespace = codes "runners"; name = codes "core" }

abbrev all_runs : Selector
all_runs = record { matches = everything; text = [] }

served :
    (v : ScaledMetric whole) × (w : World Memory) × (value_for whole outside sum224 host info
        core_name all_runs start
      ≡ some (ok v, w))
unfolding value_for query_metric get_workflow fetched known get_output int32_of raw_output bounded
    filter_by_selector get_labels_for_output decimal lookup insert contains_str sort_strings ◌+ℤ◌
    calculate_forced_scale
served = (_, _, refl)

raw_number : (q : ℤ) → eqb_ℤ (raw_output whole linear q) (raw_output whole linear q) ≡ true
unfolding raw_output
raw_number q = eqb_ℤ_refl q

value_for_bounds_example : (pos 1 ≤ℤ served.0.value) × (served.0.value ≤ℤ pos 4)
unfolding get_workflow
value_for_bounds_example =
    value_for_bounds whole outside sum224 host info core_name all_runs core served.0 start served.1
      refl (omega arith) (omega arith) (omega arith) (omega arith) raw_number served.2

-- A name that no runner has.
abbrev nobody : NamespacedName
nobody = record { namespace = codes "runners"; name = codes "nobody" }

-- The text of the error of the metrics library.
abbrev message : MetricError → Text
message _ = codes "the server could not find the metric"

get_metric_by_name-unknown_example :
    get_metric_by_name whole outside sum224 host
      (λ _. ok all_runs)
      message
      nobody
      info
      all_runs
      start
    ≡ some (err (bad_request (codes "Error getting metric")), start)
unfolding get_workflow selector_for
get_metric_by_name-unknown_example =
    get_metric_by_name-unknown whole outside sum224 host (λ _. ok all_runs) message nobody info
      all_runs all_runs start refl
      (ne_of_text_eq (codes "the server could not find the metric") metric_not_found refl) refl

-- A host with a second runner, in another namespace.
abbrev two_namespaces : Host whole Memory (List (GithubWorkflowConfig whole))
two_namespaces = record host {
  workflows = record core { name = codes "other"; namespace = codes "else" } ∷ core ∷ [];
}

listed :
    (r : Result MetricError (List (MetricValue whole))) × (w : World Memory)
    × (get_metric_by_selector whole outside sum224 two_namespaces
          (codes "runners")
          all_runs
          info
          start
        ≡ some (r, w))
unfolding get_metric_by_selector get_all_metric_names value_for query_metric get_workflow
listed = (_, _, refl)

get_metric_by_selector-fails_example : (e : MetricError) × (listed.0 ≡ err e)
unfolding get_workflow
get_metric_by_selector-fails_example =
    get_metric_by_selector-fails whole outside sum224 two_namespaces (codes "runners") all_runs info
      start listed.1 listed.0 (λ e. cc) refl refl listed.2

-- A provider for the tests of the connection; its calls do not matter.
abbrev counting : StateProvider ℕ
counting = record {
  get_state = λ k n. (err k, n);
  set_state = λ _ _ n. (none, n);
  get_workflow_info = λ k n. (err k, n);
  set_workflow_info = λ _ _ n. (none, n);
}

-- Attempts that succeed from the second one on, by how many there were.
abbrev second_time : ℕ → Result Text (StateProvider ℕ) × ℕ
second_time zero = (err (codes "refused"), 1)
second_time (suc n) = (ok counting, suc (suc n))

second_time-Fails : (i : ℕ) → i < 1 → Fails second_time (nth_attempt second_time i 0)
second_time-Fails zero h = (codes "refused", refl)
second_time-Fails (suc i) h = absurd (omega arith)

connect_provider-ok_example :
    connect_provider (codes "memcached:11211") second_time counting 0
    ≡ (ok counting, after second_time 2 0)
connect_provider-ok_example =
    connect_provider-ok second_time counting b'm' (codes "emcached:11211") 1 0 counting
      (omega arith) second_time-Fails refl

-- A host whose states cannot be read.
abbrev unreadable : Host whole Memory (List (GithubWorkflowConfig whole))
unreadable = record host {
  state_provider = record in_memory { get_state = λ _ m. (err (codes "unreachable"), m) };
}

warm_up-panics_example : warm_up whole outside sum224 unreadable (core ∷ []) start ≡ none
warm_up-panics_example =
    warm_up-panics whole outside sum224 unreadable core [] (codes "unreachable") empty_memory start
      refl
