-- ===== src/ApiServer/Provider.antt =====
-- apiserver/pkg/k8sprovider/provider.go: the metrics that Kubernetes asks for.
pub mod Queries
use github_runner_autoscaler.Common.{
  ℕ, ◌≡◌, Bool, true, false, ◌&&◌, not, Option, none, some, List, [], ◌∷◌, ◌++◌, map, Text, codes,
  text_eq, length, Result, ok, err, if◌then◌else◌,
}
use github_runner_autoscaler.Common.Int.{ℤ, pos, int32_of}
use github_runner_autoscaler.ApiServer.World.{
  World, M, ◌>>=◌, ◌>>◌, Outside, set_gauge, pure, deref, sample,
}
use github_runner_autoscaler.ApiServer.Scaling.{Floats, get_output}
use github_runner_autoscaler.ApiServer.GithubClient.{contains_str}
use github_runner_autoscaler.ApiServer.Workflows.{GithubWorkflowConfig}
use github_runner_autoscaler.ApiServer.Labeling.{Labels, Matched, get_labels_for_output}
use github_runner_autoscaler.ApiServer.Host.{
  QueryResult, Host, metric_not_found, query_metric, get_all_metric_names,
}

-- labels.Selector
pub record Selector : Type 0 where
  pub matches : Labels → Bool
  pub text : Text

-- provider.CustomMetricInfo, as far as it is read.
pub record MetricInfo : Type 0 where
  pub resource : Text
  pub metric : Text

-- types.NamespacedName
pub record NamespacedName : Type 0 where
  pub namespace : Text
  pub name : Text

-- `name.String()`
abbrev pub full_name : NamespacedName → Text
full_name n = n.namespace ++ (codes "/" ++ n.name)

-- The errors of the API, by the constructor that makes them, and other ones by their text.
pub data MetricError : Type 0 where
  metric_not_found_for : Text → Text → Text → MetricError
  not_found : Text → MetricError
  bad_request : Text → MetricError
  plain : Text → MetricError

-- An empty selector is replaced by the one that the name of the metric spells.
unfoldable pub selector_for :
    (Text → Result Text Selector) → MetricInfo → Selector → Result Text Selector
selector_for parse info selector =
    if text_eq selector.text [] && not (text_eq info.metric (codes "*"))
    then parse info.metric
    else ok selector

-- The names, each once, in an order that the Go map leaves open.
unfoldable pub distinct_names : List Text → List Text
unfolding contains_str
distinct_names [] = []
distinct_names (n ∷ names) =
    let rest = distinct_names names in if contains_str rest n then rest else n ∷ rest

module _ (F : Floats) where
  pub record ScaledMetric : Type 0 where
    pub value : ℤ
    pub retrieval_time : ℤ
    pub workflow : GithubWorkflowConfig F
    pub labels : Labels

  -- custom_metrics.MetricValue
  pub record MetricValue : Type 0 where
    pub name : Text
    pub namespace : Text
    pub labels : Labels
    pub value : ℤ
    pub timestamp : ℤ

  unfoldable pub metric_for : ScaledMetric → MetricValue
  metric_for v = record {
    name = v.workflow.name;
    namespace = v.workflow.namespace;
    labels = v.labels;
    value = v.value;
    timestamp = v.retrieval_time;
  }

  module _ {S C : Type 0} (o : Outside) (sum224 : Text → List ℕ) (h : Host F S C) where
    -- The scaled number of runners, with the samples of the metrics.
    unfoldable pub scaled_value :
        NamespacedName
        → Selector
        → QueryResult F
        → GithubWorkflowConfig F
        → M S (Result MetricError ScaledMetric)
    scaled_value name selector a wf = do
      let (prometheus, all_labels) = get_labels_for_output a.labels
      let scaled =
          if a.force_scale
          then wf.scaling.max_workers
          else get_output F wf.scaling (int32_of a.total)
      let shown =
          if a.force_scale then codes "ForciblyScaledUp_" ++ full_name name else full_name name
      let labels = shown ∷ selector.text ∷ prometheus
      sample (set_gauge (codes "workflow_queue_length_filtered") labels (pos a.total))
      sample (set_gauge (codes "workflow_queue_length_filtered_scaled") labels scaled)
      t ← deref a.retrieval_time
      pure (ok record { value = scaled; retrieval_time = t; workflow = wf; labels = all_labels })

    -- `valueFor`, for a selector that is not nil, as both callers give it.
    unfoldable pub value_for :
        MetricInfo → NamespacedName → Selector → M S (Result MetricError ScaledMetric)
    unfolding scaled_value
    value_for info name selector = do
      a ← query_metric F o sum224 h name.name selector.matches
      elim a.error [
        | some e ↦ pure (
            if text_eq e metric_not_found
            then err (metric_not_found_for info.resource info.metric name.name)
            else err (plain e))
        | none ↦ (do wf ← deref a.workflow; scaled_value name selector a wf)
      ]

    unfoldable pub get_metric_by_name :
        (parse : Text → Result Text Selector)
        → (message : MetricError → Text) → NamespacedName
        → MetricInfo
        → Selector
        → M S (Result MetricError MetricValue)
    unfolding selector_for value_for metric_for
    get_metric_by_name parse message name info selector = elim (selector_for parse info selector) [
      | err e ↦ pure (err (plain e))
      | ok s ↦ (do
        r ← value_for info name s
        pure (elim r [
          | ok v ↦ ok (metric_for v)
          | err e ↦
              if text_eq (message e) metric_not_found
              then err (not_found name.name)
              else err (bad_request (codes "Error getting metric"))
        ]))
    ]

    -- A metric without labels is left out.
    unfoldable pub add_metric : ScaledMetric → List MetricValue → List MetricValue
    add_metric v metrics = elim v.labels [ [] ↦ metrics | l ∷ ls ↦ metrics ++ (metric_for v ∷ []) ]

    unfoldable pub metrics_of :
        MetricInfo
        → Text
        → Selector
        → List Text
        → List MetricValue
        → M S (Result MetricError (List MetricValue))
    unfolding value_for add_metric
    metrics_of info namespace selector [] metrics = pure (ok metrics)
    metrics_of info namespace selector (name ∷ names) metrics = do
      r ← value_for info (record { namespace = namespace; name = name }) selector
      elim r [
        | err e ↦ pure (err e)
        | ok v ↦ metrics_of info namespace selector names (add_metric v metrics)
      ]

    unfoldable pub get_metric_by_selector :
        Text → Selector → MetricInfo → M S (Result MetricError (List MetricValue))
    unfolding metrics_of
    get_metric_by_selector namespace selector info =
        metrics_of info namespace selector (get_all_metric_names F o sum224 h namespace) []

    unfoldable pub list_all_metrics : List Text
    unfolding distinct_names
    list_all_metrics = distinct_names (get_all_metric_names F o sum224 h [])
