-- ===== src/ApiServer/Provider/Queries.antt =====
-- provider.go: when a query fails, and the value of a metric.
use github_runner_autoscaler.Common.{
  ℕ, ◌≡◌, ◌≢◌, true, not, none, some, List, [], ◌∷◌, Text, codes, text_eq, text_eq_iff, any, arith,
  Result, ok, err, inl, inr, Option-cases,
}
use github_runner_autoscaler.Common.Int.{ℤ, pos, int32_of, ◌≤ℤ◌}
use github_runner_autoscaler.ApiServer.World.{World, Outside}
use github_runner_autoscaler.ApiServer.Scaling.{Floats, IsInt32, raw_output}
use github_runner_autoscaler.ApiServer.Scaling.Output.{get_output_bounds}
use github_runner_autoscaler.ApiServer.Host.Queries.{query_metric-workflow}
use github_runner_autoscaler.ApiServer.Workflows.{GithubWorkflowConfig, get_workflow}
use github_runner_autoscaler.ApiServer.Host.{
  Host, metric_names, get_all_metric_names, query_metric, metric_not_found,
}
use github_runner_autoscaler.ApiServer.Provider.{
  Selector, MetricInfo, NamespacedName, MetricError, bad_request, metric_not_found_for, MetricValue,
  ScaledMetric, selector_for, value_for, get_metric_by_name, metrics_of, add_metric,
  get_metric_by_selector,
}

empty_name :
    {F : Floats} (namespace : Text) (wfs : List (GithubWorkflowConfig F))
    → namespace ≢ []
    → any (λ wf. not (text_eq wf.namespace namespace)) wfs ≡ true
    → any (λ n. text_eq n []) (metric_names F namespace wfs) ≡ true
unfolding metric_names
empty_name namespace [] some_namespace elsewhere = elsewhere
empty_name namespace (wf ∷ wfs) some_namespace elsewhere =
    ground (arith, text_eq_iff namespace [], empty_name namespace wfs some_namespace)

module _ (F : Floats) {S C : Type 0} (o : Outside) (sum224 : Text → List ℕ) (h : Host F S C) where
  -- A name without a configuration is an error that is found before anything is asked.
  value_for-unknown :
      (info : MetricInfo) (name : NamespacedName) (selector : Selector) (w : World S)
      → get_workflow F h.store name.name h.workflows ≡ ok none
      → value_for F o sum224 h info name selector w
        ≡ some (err (metric_not_found_for info.resource info.metric name.name), w)
  unfolding value_for query_metric
  value_for-unknown info name selector w unknown = ground arith

  -- A query for a name that no runner has ends with a bad request and not with the error for
  -- something that is not found, if the text of the error of the metrics library is not the one
  -- that the code compares it with.
  pub get_metric_by_name-unknown :
      (parse : Text → Result Text Selector) (message : MetricError → Text) (name : NamespacedName)
      (info : MetricInfo) (selector used : Selector) (w : World S)
      → selector_for parse info selector ≡ ok used
      → message (metric_not_found_for info.resource info.metric name.name) ≢ metric_not_found
      → get_workflow F h.store name.name h.workflows ≡ ok none
      → get_metric_by_name F o sum224 h parse message name info selector w
        ≡ some (err (bad_request (codes "Error getting metric")), w)
  unfolding get_metric_by_name
  get_metric_by_name-unknown parse message name info selector used w parsed differs unknown =
      ground (
        arith,
        value_for-unknown info name used w unknown,
        text_eq_iff (message (metric_not_found_for info.resource info.metric name.name))
            metric_not_found,
      )

  -- no list
  metrics_of-unknown :
      (info : MetricInfo) (namespace : Text) (selector : Selector) (names : List Text)
      (metrics : List (MetricValue F)) (w w' : World S)
      (r : Result MetricError (List (MetricValue F)))
      → any (λ n. text_eq n []) names ≡ true
      → get_workflow F h.store [] h.workflows ≡ ok none
      → metrics_of F o sum224 h info namespace selector names metrics w ≡ some (r, w')
      → (e : MetricError) × (r ≡ err e)
  unfolding metrics_of
  metrics_of-unknown info namespace selector [] metrics w w' r empty unknown e = ground arith
  metrics_of-unknown info namespace selector (n ∷ names) metrics w w' r empty unknown e =
      elim (Option-cases
        (value_for F o sum224 h info (record { namespace = namespace; name = n }) selector w)) [
          | inl panicked ↦ absurd (ground arith)
          | inr ((ok v, w1), found) ↦
              metrics_of-unknown info namespace selector names (add_metric F o sum224 h v metrics)
                w1 w' r
                (ground (
                  arith,
                  text_eq_iff n [],
                  value_for-unknown info (record { namespace = namespace; name = n }) selector w,
                ))
                unknown (ground arith)
          | inr ((err f, w1), found) ↦ (f, ground arith)
        ]

  -- While some runner lies in another namespace, the metrics of a namespace cannot be queried by a
  -- selector: if the query returns, it is with an error. The namespace is not the empty one, and
  -- no runner has an empty name.
  pub get_metric_by_selector-fails :
      (namespace : Text) (selector : Selector) (info : MetricInfo) (w w' : World S)
      (r : Result MetricError (List (MetricValue F)))
      → namespace ≢ []
      → any (λ wf. not (text_eq wf.namespace namespace)) (h.store.list h.workflows) ≡ true
      → get_workflow F h.store [] h.workflows ≡ ok none
      → get_metric_by_selector F o sum224 h namespace selector info w ≡ some (r, w')
      → (e : MetricError) × (r ≡ err e)
  unfolding get_metric_by_selector get_all_metric_names
  get_metric_by_selector-fails namespace selector info w w' r some_namespace elsewhere unknown e =
      metrics_of-unknown info namespace selector
        (metric_names F namespace (h.store.list h.workflows)) [] w w' r
        (empty_name namespace (h.store.list h.workflows) some_namespace elsewhere) unknown e

  -- Every value that is served for a runner lies between its minimum and its maximum, also where
  -- scaling is forced, if both are int32, the minimum is not above the maximum, the maximum is at
  -- least 1, and the unbounded result is a number for every queue.
  pub value_for_bounds :
      (info : MetricInfo) (name : NamespacedName) (selector : Selector)
      (wf : GithubWorkflowConfig F) (v : ScaledMetric F) (w w' : World S)
      → get_workflow F h.store name.name h.workflows ≡ ok (some wf)
      → IsInt32 wf.scaling.min_workers
      → IsInt32 wf.scaling.max_workers
      → wf.scaling.min_workers ≤ℤ wf.scaling.max_workers
      → pos 1 ≤ℤ wf.scaling.max_workers
      → ((q : ℤ) → F.eq (raw_output F wf.scaling q) (raw_output F wf.scaling q) ≡ true)
      → value_for F o sum224 h info name selector w ≡ some (ok v, w')
      → (wf.scaling.min_workers ≤ℤ v.value) × (v.value ≤ℤ wf.scaling.max_workers)
  unfolding value_for
  value_for_bounds info name selector wf v w w' found hmin hmax ordered one number e =
      elim (Option-cases (query_metric F o sum224 h name.name selector.matches w)) [
        | inl panicked ↦ absurd (ground arith)
        | inr ((a, w1), asked) ↦
            (let same =
                query_metric-workflow F o sum224 h name.name selector.matches wf a w w1 found
                  asked in
              let q : ℤ = int32_of a.total in
              ground
                (arith, same, get_output_bounds F wf.scaling hmin hmax ordered q one (number q)))
      ]
