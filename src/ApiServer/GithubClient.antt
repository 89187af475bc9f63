-- ===== src/ApiServer/GithubClient.antt =====
-- apiserver/pkg/gitclient/github_client.go: the calls of GitHub and what is kept of the answers.
pub mod Tokens
pub mod Labels
use github_runner_autoscaler.Common.{
  ℕ, ◌+◌, ◌≡◌, Bool, true, false, ◌||◌, Option, none, some, List, [], ◌∷◌, ◌++◌, ◌==◌, ltb, leb,
  Text, codes, length, text_eq, Result, ok, err, if◌then◌else◌,
}
use github_runner_autoscaler.Common.Int.{ℤ, eqb_ℤ}
use github_runner_autoscaler.AddRunner.Encoding.{base64}
use github_runner_autoscaler.ApiServer.World.{
  World, M, ◌>>=◌, Outside, WorkflowRun, Workflow, list_workflow_runs, list_workflows,
  download_contents, rate_limits, pure, deref, ask,
}
use github_runner_autoscaler.ApiServer.State.{WorkflowInfo, WorkflowInfos}
use github_runner_autoscaler.ApiServer.Client.{StatelessClient, Credits}

-- `access_token` is the token of the inner client.
pub record GithubClient : Type 0 where
  pub owner : Text
  pub repository : Text
  pub access_token : Text
  pub token : Text

-- `NewGitHubClient` does not set the field `token`.
unfoldable pub new_github_client : Text → Text → Text → GithubClient
new_github_client token owner repository = record {
  owner = owner;
  repository = repository;
  access_token = token;
  token = [];
}

abbrev pub is_waiting : Text → Bool
is_waiting s =
    text_eq s (codes "queued")
    || text_eq s (codes "waiting")
    || text_eq s (codes "requested")
    || text_eq s (codes "in_progress")

-- `none` where a run has no status.
unfoldable pub filter_jobs_by_status : List WorkflowRun → Option (List WorkflowRun)
filter_jobs_by_status [] = some []
filter_jobs_by_status (j ∷ jobs) = elim j.status [
  | none ↦ none
  | some s ↦ elim (filter_jobs_by_status jobs) [
    | none ↦ none
    | some filtered ↦ some (if is_waiting s then j ∷ filtered else filtered)
  ]
]

-- The bytes of a rune in UTF-8.
abbrev pub rune_width : ℕ → ℕ
rune_width c = if ltb c 0x80 then 1 else if ltb c 0x800 then 2 else if ltb c 0x10000 then 3 else 4

abbrev pub byte_length : Text → ℕ
byte_length [] = 0
byte_length (c ∷ s) = rune_width c + byte_length s

-- The loop of `tokenizeToken` over the runes of a token of `total` bytes, from byte `i` on.
unfoldable pub redact_from : ℕ → ℕ → Text → Text
redact_from total i [] = []
redact_from total i (c ∷ s) =
    (if ltb i 3 || leb total (i + 3) then c else b'*') ∷ redact_from total (i + rune_width c) s

-- Raw base64 has no padding.
unfoldable pub without_padding : Text → Text
without_padding [] = []
without_padding (c ∷ s) = if c == b'=' then without_padding s else c ∷ without_padding s

-- The key and the shown form of a token of valid UTF-8, given by its runes.
unfoldable pub tokenize_token : (Text → List ℕ) → Text → Text × Text
unfolding redact_from without_padding
tokenize_token sum224 token =
    (without_padding (base64 (sum224 token)), redact_from (byte_length token) 0 token)

unfoldable pub contains_str : List Text → Text → Bool
contains_str [] i = false
contains_str (x ∷ arr) i = if text_eq x i then true else contains_str arr i

-- The order of Go strings.
abbrev pub text_ltb : Text → Text → Bool
text_ltb [] [] = false
text_ltb [] (_ ∷ _) = true
text_ltb (_ ∷ _) [] = false
text_ltb (a ∷ s) (b ∷ t) = ltb a b || (if a == b then text_ltb s t else false)

unfoldable pub insert_sorted : Text → List Text → List Text
insert_sorted x [] = x ∷ []
insert_sorted x (y ∷ ys) = if text_ltb y x then y ∷ insert_sorted x ys else x ∷ (y ∷ ys)

-- `sort.Strings`
unfoldable pub sort_strings : List Text → List Text
unfolding insert_sorted
sort_strings [] = []
sort_strings (x ∷ xs) = insert_sorted x (sort_strings xs)

-- The labels that are new are put at the end.
unfoldable pub add_labels : List Text → List Text → List Text
unfolding contains_str
add_labels runs_on [] = runs_on
add_labels runs_on (l ∷ ls) =
    add_labels (if contains_str runs_on l then runs_on else runs_on ++ (l ∷ [])) ls

unfoldable pub add_all_labels : List Text → List (List Text) → List Text
unfolding add_labels
add_all_labels runs_on [] = runs_on
add_all_labels runs_on (j ∷ jobs) = add_all_labels (add_labels runs_on j) jobs

-- `processWorkflow`, on the `runs-on` lists of the jobs, in some order.
unfoldable pub process_workflow : List (List Text) → List Text
unfolding add_all_labels sort_strings
process_workflow jobs = sort_strings (add_all_labels [] jobs)

unfoldable pub set_info : ℤ → WorkflowInfo → WorkflowInfos → WorkflowInfos
set_info k v [] = (k, v) ∷ []
set_info k v ((j, u) ∷ m) = if eqb_ℤ j k then (k, v) ∷ m else (j, u) ∷ set_info k v m

-- A workflow whose labels cannot be read has none.
abbrev pub labels_or_none : Result Text (List Text) → List Text
labels_or_none (err e) = []
labels_or_none (ok ls) = ls

module _ {S : Type 0} (o : Outside) (c : GithubClient) where
  open c use {owner, repository, access_token}

  unfoldable pub fetch_queued_jobs : M S (Result Text (List WorkflowRun))
  unfolding filter_jobs_by_status
  fetch_queued_jobs = do
    runs ← ask o.runs (list_workflow_runs access_token owner repository 100)
    elim runs [
      | err e ↦ pure (err e)
      | ok all_runs ↦ (do jobs ← deref (filter_jobs_by_status all_runs); pure (ok jobs))
    ]

  unfoldable pub get_remaining_credits_for_token : (Text → List ℕ) → M S Credits
  unfolding tokenize_token
  get_remaining_credits_for_token sum224 = do
    let (key, name) = tokenize_token sum224 c.token
    limits ← ask o.credits (rate_limits access_token)
    pure record { key = key; name = name; remaining = limits }

  unfoldable pub get_labels : Text → M S (Result Text (List Text))
  unfolding process_workflow
  get_labels path = do
    jobs ← ask o.contents (download_contents access_token owner repository path)
    pure (elim jobs [ err e ↦ err e | ok lists ↦ ok (process_workflow lists) ])

  unfoldable pub collect : List Workflow → WorkflowInfos → M S WorkflowInfos
  unfolding get_labels set_info
  collect [] results = pure results
  collect (w ∷ ws) results = do
    path ← deref w.path
    labels ← get_labels path
    id ← deref w.id
    name ← deref w.name
    collect ws
        (set_info id (record { id = id; name = name; labels = labels_or_none labels }) results)

  unfoldable pub get_workflow_data : M S (Result Text WorkflowInfos)
  unfolding collect
  get_workflow_data = do
    wfs ← ask o.workflows (list_workflows access_token owner repository)
    elim wfs [ err e ↦ pure (err e) | ok ws ↦ (do results ← collect ws []; pure (ok results)) ]

  unfoldable pub stateless_client : (Text → List ℕ) → StatelessClient S
  unfolding fetch_queued_jobs get_remaining_credits_for_token get_workflow_data
  stateless_client sum224 = record {
    get_queued_jobs = fetch_queued_jobs;
    get_remaining_credits_for_token = get_remaining_credits_for_token sum224;
    get_workflow_data = get_workflow_data;
  }
