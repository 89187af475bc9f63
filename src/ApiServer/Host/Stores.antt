-- ===== src/ApiServer/Host/Stores.antt =====
-- What the clients of a host rely on: the store in memory reads back what was saved, and the GitHub
-- client leaves the store alone.
use github_runner_autoscaler.Common.{◌≡◌, refl, ◌∷◌, ℕ, List, Text, text_eq_refl, arith}
use github_runner_autoscaler.Common.Dict.{lookup-insert}
use github_runner_autoscaler.ApiServer.World.{Outside, rate_limits}
use github_runner_autoscaler.ApiServer.State.{Memory, in_memory}
use github_runner_autoscaler.ApiServer.Client.Laws.{ReadsBack, CreditsKeep}
use github_runner_autoscaler.ApiServer.Scaling.{Floats}
use github_runner_autoscaler.ApiServer.Workflows.{GithubWorkflowConfig}
use github_runner_autoscaler.ApiServer.GithubClient.{
  stateless_client, get_remaining_credits_for_token, new_github_client,
}
use github_runner_autoscaler.ApiServer.Host.{Host, get_client}

module _ (F : Floats) {C : Type 0} (o : Outside) (sum224 : Text → List ℕ) where
  pub get_client-CreditsKeep :
      {S : Type 0} (h : Host F S C) (wf : GithubWorkflowConfig F)
      → CreditsKeep o (get_client F o sum224 h wf)
  unfolding get_client stateless_client get_remaining_credits_for_token new_github_client
  get_client-CreditsKeep h wf w =
      (_, record w { calls = rate_limits wf.token ∷ w.calls }, refl, refl)

  pub get_client-ReadsBack :
      (h : Host F Memory C) (wf : GithubWorkflowConfig F)
      → h.state_provider ≡ in_memory
      → ReadsBack o (get_client F o sum224 h wf)
  unfolding get_client in_memory
  get_client-ReadsBack h wf e k s st st' saved =
      let st_eq : st' ≡ (in_memory.set_state k s st).1 = ground arith in
      ground (arith, e, st_eq, lookup-insert k k s st.client_state_data, text_eq_refl k)
