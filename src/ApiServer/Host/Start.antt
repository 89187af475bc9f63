-- ===== src/ApiServer/Host/Start.antt =====
-- host.go: the attempts to connect to memcached, and the queues that a new host fetches.
use github_runner_autoscaler.Common.{
  ℕ, zero, suc, ◌<◌, ◌≡◌, refl, none, List, [], ◌∷◌, Text, Result, ok, err, arith,
}
use github_runner_autoscaler.ApiServer.World.{World, Outside}
use github_runner_autoscaler.ApiServer.Scaling.{Floats}
use github_runner_autoscaler.ApiServer.State.{StateProvider}
use github_runner_autoscaler.ApiServer.Client.{get_queued_jobs}
use github_runner_autoscaler.ApiServer.Workflows.{GithubWorkflowConfig}
use github_runner_autoscaler.ApiServer.Host.{Host, connect, connect_provider, warm_up}

module _ {A S : Type 0} (attempt : S → Result Text A × S) where
  -- The state after some attempts.
  abbrev pub after : ℕ → S → S
  after zero s = s
  after (suc k) s = after k (attempt s).1

  -- The attempt after `k` others.
  abbrev pub nth_attempt : ℕ → S → Result Text A
  nth_attempt k s = (attempt (after k s)).0

  abbrev pub Fails : Result Text A → Type 0
  Fails r = (e : Text) × (r ≡ err e)

  connect-ok :
      (k left : ℕ) (e : Text) (s : S) (p : A)
      → k < left
      → ((i : ℕ) → i < k → Fails (nth_attempt i s))
      → nth_attempt k s ≡ ok p
      → connect attempt left e s ≡ (ok p, after (suc k) s)
  unfolding connect
  connect-ok k zero e s p lt fails good = absurd (omega arith)
  connect-ok zero (suc left) e s p lt fails good = ground arith
  connect-ok (suc k) (suc left) e s p lt fails good =
      let (f, first) = fails 0 (omega arith) in
      ground (
        arith,
        first,
        connect-ok k left f (attempt s).1 p (omega arith) (λ i h. fails (suc i) (omega arith)) good,
      )

  connect-err :
      (left : ℕ) (e : Text) (s : S)
      → ((i : ℕ) → i < left → Fails (nth_attempt i s))
      → (f : Text) × (connect attempt left e s ≡ (err f, after left s))
  unfolding connect
  connect-err zero e s fails = (e, refl)
  connect-err (suc left) e s fails =
      let (f, first) = fails 0 (omega arith) in
      let (g, rest) = connect-err left f (attempt s).1 (λ i h. fails (suc i) (omega arith)) in
      (g, ground (arith, first, rest))

module _ {S : Type 0} (attempt : S → Result Text (StateProvider S) × S)
    (memory : StateProvider S) where
  -- If one of the first 120 attempts to connect to memcached succeeds and those before it fail,
  -- the provider is that of the first success, and no further attempt is made.
  pub connect_provider-ok :
      (server : ℕ) (servers : Text) (k : ℕ) (s : S) (p : StateProvider S)
      → k < 120
      → ((i : ℕ) → i < k → Fails attempt (nth_attempt attempt i s))
      → nth_attempt attempt k s ≡ ok p
      → connect_provider (server ∷ servers) attempt memory s ≡ (ok p, after attempt (suc k) s)
  unfolding connect_provider
  connect_provider-ok server servers k s p few fails good =
      connect-ok attempt k 120 [] s p few fails good

  -- failure
  pub connect_provider-err :
      (server : ℕ) (servers : Text) (s : S)
      → ((i : ℕ) → i < 120 → Fails attempt (nth_attempt attempt i s))
      → (e : Text) × (connect_provider (server ∷ servers) attempt memory s
          ≡ (err e, after attempt 120 s))
  unfolding connect_provider
  connect_provider-err server servers s fails = connect-err attempt 120 [] s fails

module _ (F : Floats) {S C : Type 0} (o : Outside) (sum224 : Text → List ℕ) (h : Host F S C) where
  -- A new host panics if the state of its first runner cannot be read.
  pub warm_up-panics :
      (wf : GithubWorkflowConfig F) (wfs : List (GithubWorkflowConfig F)) (e : Text) (st : S)
      (w : World S)
      → h.state_provider.get_state wf.name w.store ≡ (err e, st)
      → warm_up F o sum224 h (wf ∷ wfs) w ≡ none
  unfolding warm_up get_queued_jobs
  warm_up-panics wf wfs e st w unread = ground arith
