-- ===== src/ApiServer/Labeling.antt =====
-- apiserver/pkg/labeling/labeling.go: the labels of a workflow run, the runs that a selector matches,
-- and the labels of the metrics. A text is here the list of its code points.
pub mod Matching
use github_runner_autoscaler.Common.{
  ℕ, suc, ◌≡◌, Bool, true, false, ◌||◌, Option, none, some, List, [], ◌∷◌, ◌++◌, ◌==◌, map, Text,
  codes, join, is_digit, is_lower, is_upper, if◌then◌else◌,
}
use github_runner_autoscaler.Common.Dict.{lookup, insert}
use github_runner_autoscaler.Common.Int.{ℤ, pos, negsuc, eqb_ℤ}
use github_runner_autoscaler.AddRunner.Encoding.{decimal}
use github_runner_autoscaler.ApiServer.World.{WorkflowRun}
use github_runner_autoscaler.ApiServer.Scaling.{Floats}
use github_runner_autoscaler.ApiServer.State.{WorkflowInfo, WorkflowInfos}
use github_runner_autoscaler.ApiServer.GithubClient.{contains_str, sort_strings}
use github_runner_autoscaler.ApiServer.Workflows.{GithubWorkflowConfig}

-- `labels.Set`, and the values of several of them.
abbrev pub Labels : Type 0
Labels = List (Text × Text)

abbrev pub Matched : Type 0
Matched = List (Text × List Text)

abbrev pub wf_id_label : Text
wf_id_label = codes "wf_id"

abbrev pub wf_name_label : Text
wf_name_label = codes "wf_name"

abbrev pub wf_all_runs_on : Text
wf_all_runs_on = codes "wf_runs_on"

abbrev pub job_labels_for_prometheus : List Text
job_labels_for_prometheus = wf_id_label ∷ wf_name_label ∷ wf_all_runs_on ∷ []

-- `(?i)[a-z\d]`: without regard to case, the long s and the Kelvin sign are letters as well.
abbrev pub is_alphanumeric : ℕ → Bool
is_alphanumeric c = is_lower c || is_upper c || is_digit c || c == 0x17f || c == 0x212a

-- `(?i)[^-a-z\d_.]` replaced by `_`
abbrev pub allowed : ℕ → ℕ
allowed c = if is_alphanumeric c || c == b'-' || c == b'_' || c == b'.' then c else b'_'

unfoldable pub strip_front : Text → Text
strip_front [] = []
strip_front (c ∷ s) = if is_alphanumeric c then c ∷ s else strip_front s

unfoldable pub strip_back : Text → Text
strip_back [] = []
strip_back (c ∷ s) = elim (strip_back s) [
  | [] ↦ if is_alphanumeric c then c ∷ [] else []
  | d ∷ r ↦ c ∷ d ∷ r
]

unfoldable pub sanitize_label_value : Text → Text
unfolding strip_front strip_back
sanitize_label_value val = strip_back (strip_front (map allowed val))

-- `%d`
abbrev pub format_int : ℤ → Text
format_int (pos n) = decimal n
format_int (negsuc n) = b'-' ∷ decimal (suc n)

unfoldable pub find_info : ℤ → WorkflowInfos → Option WorkflowInfo
find_info k [] = none
find_info k ((j, info) ∷ infos) = if eqb_ℤ j k then some info else find_info k infos

-- Every `.` replaced by `_`
abbrev pub dots_replaced : Text → Text
dots_replaced s = map (λ c. if c == b'.' then b'_' else c) s

unfoldable pub runs_on_key : Text → Text
runs_on_key label = codes "wf_runs_on_" ++ label

-- A label of its own for each label of a runner.
unfoldable pub add_runs_on : List Text → Labels → Labels
unfolding runs_on_key
add_runs_on [] lbls = lbls
add_runs_on (rl ∷ rls) lbls = add_runs_on rls (insert (runs_on_key rl) rl lbls)

unfoldable pub info_labels : WorkflowInfo → Labels → Labels
unfolding sanitize_label_value add_runs_on sort_strings
info_labels info lbls =
    let runs_on = sort_strings info.labels in
    insert wf_all_runs_on (join (b'.' ∷ []) (map dots_replaced runs_on))
      (add_runs_on runs_on (insert wf_name_label (sanitize_label_value info.name) lbls))

module _ (F : Floats) where
  unfoldable pub base_labels : ℤ → GithubWorkflowConfig F → Labels
  unfolding sanitize_label_value
  base_labels id wf = insert wf_name_label (codes "unknown") (
      (wf_id_label, format_int id)
      ∷ (codes "cr_name", sanitize_label_value wf.name)
      ∷ (codes "cr_namespace", sanitize_label_value wf.namespace)
      ∷ (codes "cr_repo", sanitize_label_value wf.repository)
      ∷ (codes "cr_owner", sanitize_label_value wf.owner)
      ∷ [])

  -- `none` where a run has no workflow.
  unfoldable pub labels_of : WorkflowRun → GithubWorkflowConfig F → WorkflowInfos → Option Labels
  unfolding base_labels find_info info_labels
  labels_of r wf infos = elim r.workflow_id [
    | none ↦ none
    | some id ↦ some (elim (find_info id infos) [
      | none ↦ base_labels id wf
      | some info ↦ info_labels info (base_labels id wf)
    ])
  ]

-- The values that are matched under a label.
abbrev pub values_at : Text → Matched → List Text
values_at l m = elim (lookup l m) [ none ↦ [] | some vs ↦ vs ]

unfoldable pub add_value : Text → Text → Matched → Matched
unfolding contains_str
add_value l v m =
    if contains_str (values_at l m) v then m else insert l (values_at l m ++ (v ∷ [])) m

unfoldable pub add_values : Labels → Matched → Matched
unfolding add_value
add_values [] m = m
add_values ((l, v) ∷ lbls) m = add_values lbls (add_value l v m)

module _ (F : Floats) (wf : GithubWorkflowConfig F) (infos : WorkflowInfos)
    (matches : Labels → Bool) where
  -- The loop of `FilterBySelector`.
  unfoldable pub filter_from :
      List WorkflowRun → List WorkflowRun → Matched → Option (List WorkflowRun × Matched)
  unfolding labels_of add_values
  filter_from [] filtered m = some (filtered, m)
  filter_from (r ∷ runs) filtered m = elim (labels_of F r wf infos) [
    | none ↦ none
    | some lbls ↦
        filter_from runs (if matches lbls then filtered ++ (r ∷ []) else filtered)
          (if matches lbls then add_values lbls m else m)
  ]

  unfoldable pub filter_by_selector : List WorkflowRun → Option (List WorkflowRun × Matched)
  unfolding filter_from
  filter_by_selector runs = filter_from runs [] []

-- Each label with its values, sorted and joined.
unfoldable pub joined_labels : Matched → Labels
unfolding sort_strings
joined_labels [] = []
joined_labels ((l, vs) ∷ m) = (l, join (b',' ∷ []) (sort_strings vs)) ∷ joined_labels m

abbrev pub text_or_empty : Option Text → Text
text_or_empty none = []
text_or_empty (some t) = t

unfoldable pub get_labels_for_output : Matched → List Text × Labels
unfolding joined_labels
get_labels_for_output m = (
  map (λ l. text_or_empty (lookup l (joined_labels m))) job_labels_for_prometheus,
  joined_labels m,
)
