-- ===== src/ApiServer/Client.antt =====
-- apiserver/pkg/gitclient/client.go: the client that remembers the queue of a repository for some time.
pub mod Laws
use github_runner_autoscaler.Common.{
  ℕ, ◌≡◌, Bool, true, false, not, Option, none, some, List, [], ◌∷◌, ◌++◌, Text, codes, length,
  Result, ok, err, if◌then◌else◌,
}
use github_runner_autoscaler.Common.Int.{ℤ, pos, ◌+ℤ◌, ltb_ℤ}
use github_runner_autoscaler.ApiServer.World.{
  World, M, ◌>>=◌, ◌>>◌, Outside, WorkflowRun, Sample, set_gauge, increment, pure, now, sample,
  on_store,
}
use github_runner_autoscaler.ApiServer.State.{
  ClientState, Status, unset, valid, errored, WorkflowInfos, StateProvider,
}

-- The key and the name of a token, and the calls that it has left.
pub record Credits : Type 0 where
  pub key : Text
  pub name : Text
  pub remaining : Result Text ℤ

-- `IStatelessClient`
pub record StatelessClient (S : Type 0) : Type 0 where
  pub get_queued_jobs : M S (Result Text (List WorkflowRun))
  pub get_remaining_credits_for_token : M S Credits
  pub get_workflow_data : M S (Result Text WorkflowInfos)

pub record Client (S : Type 0) : Type 0 where
  pub inner_client : StatelessClient S
  pub cache_window : ℤ
  pub cache_window_when_empty : ℤ
  pub state_provider : StateProvider S
  pub name : Text
  pub git_owner_repo : Text

-- What `GetQueuedJobs` returns.
pub record Queue : Type 0 where
  pub jobs : List WorkflowRun
  pub retrieval_time : Option ℤ
  pub error : Option Text

abbrev is_some {ℓ} : {A : Type ℓ} → Option A → Bool
is_some none = false
is_some (some _) = true

-- `strconv.FormatBool`
abbrev pub format_bool : Bool → Text
format_bool true = codes "true"
format_bool false = codes "false"

-- Until when the remembered value is used.
unfoldable pub cache_until : {S : Type 0} → Client S → ClientState → ℤ
cache_until c s = elim s.last_value [
  | [] ↦ s.last_request +ℤ c.cache_window_when_empty
  | x ∷ xs ↦ s.last_request +ℤ c.cache_window
]

-- The error of a call whose result could not be saved either.
abbrev pub both_errors : Text → Option Text → Text
both_errors e none = e
both_errors e (some f) =
    codes "Encountered error "
    ++ (e ++ (codes ". Also errored on save " ++ (f ++ (codes ": " ++ e))))

module _ {S : Type 0} (c : Client S) where
  unfoldable pub get_state : M S (Result Text ClientState)
  get_state = on_store (c.state_provider.get_state c.name)

  unfoldable pub save_state : ClientState → M S (Option Text)
  save_state s = on_store (c.state_provider.set_state c.name s)

  abbrev credit_sample : Credits → M S (Unit {0})
  credit_sample k = elim k.remaining [
    | err e ↦ pure tt
    | ok n ↦ sample (set_gauge (codes "github_credits") (k.key ∷ k.name ∷ []) n)
  ]

  -- The samples of a call; after a call of GitHub, the remaining calls are asked for.
  unfoldable pub instrument : List WorkflowRun → Bool → Bool → M S (Unit {0})
  instrument jobs cached failed = do
    let labels = c.name ∷ format_bool cached ∷ format_bool failed ∷ []
    sample (set_gauge (codes "workflow_queue_length") labels (pos (length jobs)))
    sample (increment (codes "workflow_queue_queries") labels)
    elim cached [
      | true ↦ pure tt
      | false ↦ (do k ← c.inner_client.get_remaining_credits_for_token; credit_sample k)
    ]

  unfoldable pub store_workflow_info : WorkflowInfos → M S (Result Text WorkflowInfos)
  store_workflow_info infos = do
    e ← on_store (c.state_provider.set_workflow_info c.git_owner_repo infos)
    pure (elim e [ none ↦ ok infos | some f ↦ err f ])

  unfoldable pub get_workflow_info : M S (Result Text WorkflowInfos)
  unfolding store_workflow_info
  get_workflow_info = do
    found ← on_store (c.state_provider.get_workflow_info c.git_owner_repo)
    elim found [
      | err e ↦ pure (err e)
      | ok (some infos) ↦ store_workflow_info infos
      | ok none ↦ (do
        fetched ← c.inner_client.get_workflow_data
        elim fetched [ err e ↦ pure (err e) | ok infos ↦ store_workflow_info infos ])
    ]

  module _ (o : Outside) where
    -- Whether the remembered value is used: the clock is only read for a valid one.
    unfoldable pub is_cached : ClientState → M S Bool
    unfolding cache_until
    is_cached s = elim s.status [
      | valid ↦ (do t ← now o; pure (not (ltb_ℤ (cache_until c s) t)))
      | unset ↦ pure false
      | errored ↦ pure false
    ]

    -- What is remembered and returned after a call of GitHub.
    unfoldable pub refresh : ClientState → Result Text (List WorkflowRun) → M S Queue
    unfolding save_state instrument
    refresh s (err e) = do
      saved ← save_state (record s { status = errored })
      instrument [] false true
      pure record {
        jobs = s.last_value;
        retrieval_time = some s.last_request;
        error = some (both_errors e saved);
      }
    refresh s (ok jobs) = do
      t ← now o
      saved ← save_state (record s { last_request = t; last_value = jobs; status = valid })
      instrument jobs false (is_some saved)
      pure record { jobs = jobs; retrieval_time = some t; error = saved }

    -- The deferred `instrument` runs last on every path; on a path without a call of GitHub it sees
    -- no jobs.
    unfoldable pub serve : Result Text ClientState → M S Queue
    unfolding is_cached refresh instrument
    serve (err e) = do
      instrument [] true true
      pure record { jobs = []; retrieval_time = none; error = some e }
    serve (ok s) = do
      cached ← is_cached s
      elim cached [
        | true ↦ (do
          instrument [] true false
          pure record { jobs = s.last_value; retrieval_time = some s.last_request; error = none })
        | false ↦ (do fetched ← c.inner_client.get_queued_jobs; refresh s fetched)
      ]

    unfoldable pub get_queued_jobs : M S Queue
    unfolding get_state serve
    get_queued_jobs = do s ← get_state; serve s
