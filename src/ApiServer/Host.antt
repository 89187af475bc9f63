-- ===== src/ApiServer/Host.antt =====
-- apiserver/pkg/host/host.go: the host of the queries. apiserver/pkg/health/health.go: the probes.
pub mod Queries
pub mod Start
pub mod Stores
use github_runner_autoscaler.Common.{
  ℕ, zero, suc, ◌+◌, ◌≡◌, Bool, true, false, ◌||◌, Option, none, some, List, [], ◌∷◌, ◌++◌, map,
  Text, codes, text_eq, length, Result, ok, err, if◌then◌else◌,
}
use github_runner_autoscaler.Common.Int.{ℤ, eqb_ℤ}
use github_runner_autoscaler.ApiServer.World.{
  World, M, ◌>>=◌, ◌>>◌, Outside, WorkflowRun, pure, panic, deref,
}
use github_runner_autoscaler.ApiServer.Scaling.{Floats, Scaling, calculate_forced_scale}
use github_runner_autoscaler.ApiServer.State.{ClientState, StateProvider, WorkflowInfos}
use github_runner_autoscaler.ApiServer.Client.{
  Client, Queue, get_queued_jobs, get_workflow_info, get_state, save_state,
}
use github_runner_autoscaler.ApiServer.GithubClient.{new_github_client, stateless_client}
use github_runner_autoscaler.ApiServer.Workflows.{CacheStore, GithubWorkflowConfig, get_workflow}
use github_runner_autoscaler.ApiServer.Labeling.{Labels, Matched, filter_by_selector}

abbrev pub metric_not_found : Text
metric_not_found = codes "metric not found"

module _ (F : Floats) where
  -- What `QueryMetric` returns.
  pub record QueryResult : Type 0 where
    pub total : ℕ
    pub retrieval_time : Option ℤ
    pub labels : Matched
    pub workflow : Option (GithubWorkflowConfig F)
    pub force_scale : Bool
    pub error : Option Text

  -- `Host`, with the store of the configurations and its contents.
  pub record Host (S C : Type 0) : Type 0 where
    pub cache_window : ℤ
    pub cache_window_when_empty : ℤ
    pub store : CacheStore C (GithubWorkflowConfig F)
    pub workflows : C
    pub state_provider : StateProvider S

  abbrev pub failed : Option (GithubWorkflowConfig F) → Text → QueryResult
  failed wf e = record {
    total = 0;
    retrieval_time = none;
    labels = [];
    workflow = wf;
    force_scale = false;
    error = some e;
  }

  -- The configurations of other namespaces leave an empty name.
  unfoldable pub metric_names : Text → List (GithubWorkflowConfig F) → List Text
  metric_names namespace [] = []
  metric_names namespace (wf ∷ wfs) =
      (if text_eq namespace [] || text_eq wf.namespace namespace then wf.name else [])
      ∷ metric_names namespace wfs

  module _ {S C : Type 0} (o : Outside) (sum224 : Text → List ℕ) (h : Host S C) where
    unfoldable pub get_all_metric_names : Text → List Text
    unfolding metric_names
    get_all_metric_names namespace = metric_names namespace (h.store.list h.workflows)

    unfoldable pub get_client : GithubWorkflowConfig F → Client S
    get_client wf = record {
      inner_client = stateless_client o (new_github_client wf.token wf.owner wf.repository) sum224;
      cache_window = h.cache_window;
      cache_window_when_empty = h.cache_window_when_empty;
      state_provider = h.state_provider;
      name = wf.name;
      git_owner_repo = wf.owner ++ (codes "/" ++ wf.repository);
    }

    abbrev is_planned : Option ℤ → ℤ → Bool
    is_planned none t = false
    is_planned (some u) t = eqb_ℤ t u

    -- The next forced scaling is saved if it is new; an error of saving it is ignored.
    unfoldable pub remember : Client S → ClientState → ℤ → M S (Unit {0})
    remember c s next =
        if is_planned s.next_forced_scale next
        then pure tt
        else (do _ ← save_state c (record s { next_forced_scale = some next }); pure tt)

    -- The rest of a query, for a fetched queue, the workflows and the state.
    unfoldable pub answer :
        GithubWorkflowConfig F
        → Client S
        → (Labels → Bool)
        → Queue
        → WorkflowInfos
        → ClientState
        → M S QueryResult
    unfolding remember
    answer wf c matches q infos s = do
      plan ← calculate_forced_scale F o wf.scaling s.next_forced_scale
      remember c s plan.1
      elim (filter_by_selector F wf infos matches q.jobs) [
        | none ↦ panic
        | some (jobs, matched) ↦ pure record {
          total = length jobs;
          retrieval_time = q.retrieval_time;
          labels = matched;
          workflow = some wf;
          force_scale = plan.0;
          error = none;
        }
      ]

    unfoldable pub query_state :
        GithubWorkflowConfig F
        → Client S
        → (Labels → Bool)
        → Queue
        → WorkflowInfos
        → M S QueryResult
    unfolding answer
    query_state wf c matches q infos = do
      state ← get_state c
      elim state [ err e ↦ pure (failed (some wf) e) | ok s ↦ answer wf c matches q infos s ]

    unfoldable pub query_workflow :
        GithubWorkflowConfig F → Client S → (Labels → Bool) → M S QueryResult
    unfolding query_state
    query_workflow wf c matches = do
      q ← get_queued_jobs c o
      elim q.error [
        | some e ↦ pure (failed (some wf) e)
        | none ↦ (do
          infos ← get_workflow_info c
          elim infos [ err e ↦ pure (failed (some wf) e) | ok i ↦ query_state wf c matches q i ])
      ]

    unfoldable pub query_metric : Text → (Labels → Bool) → M S QueryResult
    unfolding query_workflow get_client
    query_metric key matches = elim (get_workflow F h.store key h.workflows) [
      | err e ↦ pure (failed none e)
      | ok none ↦ pure (failed none metric_not_found)
      | ok (some wf) ↦ query_workflow wf (get_client wf) matches
    ]

    -- The queues that a new host fetches. The log prints the time of each, which is nil if the state
    -- could not be read.
    unfoldable pub warm_up : List (GithubWorkflowConfig F) → M S (Unit {0})
    unfolding get_client
    warm_up [] = pure tt
    warm_up (wf ∷ wfs) = do
      q ← get_queued_jobs (get_client wf) o
      _ ← deref q.retrieval_time
      warm_up wfs

-- The loop that connects to memcached: `left` more attempts, with the error of the last one.
unfoldable pub connect :
    {A S : Type 0} → (S → Result Text A × S) → (left : ℕ) → Text → S → Result Text A × S
connect attempt zero e s = (err e, s)
connect attempt (suc left) e s =
    let (r, s') = attempt s in elim r [ ok p ↦ (ok p, s') | err f ↦ connect attempt left f s' ]

-- The state provider of a new host.
unfoldable pub connect_provider :
    {S : Type 0}
    → (servers : Text) → (S → Result Text (StateProvider S) × S)
    → StateProvider S
    → S
    → Result Text (StateProvider S) × S
unfolding connect
connect_provider servers attempt in_memory s = elim servers [
  | [] ↦ (ok in_memory, s)
  | c ∷ cs ↦ connect attempt 120 [] s
]

-- The status of the readiness probe: it connects anew where memcached is used.
unfoldable pub readyz : {A S : Type 0} → (servers : Text) → (S → Result Text A × S) → S → ℕ × S
readyz servers attempt s = elim servers [
  | [] ↦ (200, s)
  | c ∷ cs ↦ (let (r, s') = attempt s in (elim r [ ok _ ↦ 200 | err _ ↦ 503 ], s'))
]

-- The liveness probe always succeeds.
abbrev livez : ℕ
livez = 200
