-- ===== src/ApiServer/Host/Queries.antt =====
-- host.go: the result of a query, and the query that panics.
use github_runner_autoscaler.Common.{ℕ, ◌≡◌, Bool, none, some, List, Text, arith, ok}
use github_runner_autoscaler.Common.Int.{pos}
use github_runner_autoscaler.ApiServer.World.{World, Outside}
use github_runner_autoscaler.ApiServer.Scaling.{Floats}
use github_runner_autoscaler.ApiServer.Scaling.Forced.{calculate_forced_scale_zero}
use github_runner_autoscaler.ApiServer.State.{ClientState, WorkflowInfos}
use github_runner_autoscaler.ApiServer.Client.{Queue, get_queued_jobs, get_workflow_info, get_state}
use github_runner_autoscaler.ApiServer.Workflows.{GithubWorkflowConfig, get_workflow}
use github_runner_autoscaler.ApiServer.Labeling.{Labels}
use github_runner_autoscaler.ApiServer.Host.{
  QueryResult, Host, get_client, query_workflow, query_metric,
}

module _ (F : Floats) {S C : Type 0} (o : Outside) (sum224 : Text → List ℕ) (h : Host F S C) where
  -- An answer without an error is about the configuration that was asked for.
  pub query_metric-workflow :
      (key : Text) (matches : Labels → Bool) (wf : GithubWorkflowConfig F) (a : QueryResult F)
      (w w' : World S)
      → get_workflow F h.store key h.workflows ≡ ok (some wf)
      → query_metric F o sum224 h key matches w ≡ some (a, w')
      → a.workflow ≡ some wf
  unfolding query_metric
  query_metric-workflow key matches wf a w w' found e = ground arith

  module _ (wf : GithubWorkflowConfig F) (matches : Labels → Bool) (q : Queue)
      (infos : WorkflowInfos) (s : ClientState) (w w1 w2 w3 : World S)
      (fetched : get_queued_jobs (get_client F o sum224 h wf) o w ≡ some (q, w1))
      (no_error : q.error ≡ none)
      (known : get_workflow_info (get_client F o sum224 h wf) w1 ≡ some (ok infos, w2))
      (remembered : get_state (get_client F o sum224 h wf) w2 ≡ some (ok s, w3)) where
    -- If forced scaling is turned off by a window of 0 and no time is planned, which is so for
    -- every new client, a query panics once the queue, the workflows and the state were read.
    pub query_workflow-panics :
        wf.scaling.force_scale_up_window ≡ pos 0
        → s.next_forced_scale ≡ none
        → query_workflow F o sum224 h wf (get_client F o sum224 h wf) matches w ≡ none
    unfolding query_workflow
    query_workflow-panics off fresh =
        ground (arith, calculate_forced_scale_zero F o wf.scaling w3 off)
