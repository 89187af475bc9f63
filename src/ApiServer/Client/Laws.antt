-- ===== src/ApiServer/Client/Laws.antt =====
-- client.go: when the queue is remembered, when GitHub is called, and what an error leaves behind.
use github_runner_autoscaler.Common.{
  ◌+◌, ◌≡◌, refl, Bool, true, false, Option, none, some, List, [], ◌∷◌, Text, codes, length, Result,
  ok, err, Result-cases, arith, inl, inr, ap, sym, ◌∙◌,
}
use github_runner_autoscaler.Common.Int.{ℤ, pos, ◌≤ℤ◌}
use github_runner_autoscaler.ApiServer.World.{
  World, Outside, WorkflowRun, Sample, set_gauge, increment,
}
use github_runner_autoscaler.ApiServer.State.{ClientState, valid, errored}
use github_runner_autoscaler.ApiServer.Client.{
  Client, Queue, Credits, cache_until, get_queued_jobs, format_bool, is_cached, refresh, instrument,
  both_errors,
}

abbrev pair_or : {A : Type 0} → A → Option A → A
pair_or d none = d
pair_or d (some a) = a

module _ {S : Type 0} (o : Outside) (c : Client S) where
  open c use {inner_client, state_provider, name}

  -- The samples of a call, newest first.
  abbrev samples_of : List WorkflowRun → Bool → Bool → List Sample → List Sample
  samples_of jobs cached failed rest =
      increment (codes "workflow_queue_queries")
        (name ∷ format_bool cached ∷ format_bool failed ∷ [])
      ∷ set_gauge (codes "workflow_queue_length")
          (name ∷ format_bool cached ∷ format_bool failed ∷ []) (pos (length jobs))
      ∷ rest

  -- A remembered value
  pub get_queued_jobs-cached :
      (s : ClientState) (st : S) (w : World S)
      → state_provider.get_state name w.store ≡ (ok s, st)
      → s.status ≡ valid
      → o.clock w.ticks ≤ℤ cache_until c s
      → get_queued_jobs c o w
        ≡ some (
          record { jobs = s.last_value; retrieval_time = some s.last_request; error = none },
          record w {
            store = st;
            ticks = w.ticks + 1;
            samples = samples_of [] true false w.samples;
          },
        )
  unfolding get_queued_jobs
  get_queued_jobs-cached s st w found is_valid early = ground arith

  -- The state that a fetched queue leaves.
  abbrev refreshed : ClientState → ℤ → List WorkflowRun → ClientState
  refreshed s t jobs = record s { last_request = t; last_value = jobs; status = valid }

  -- What was saved is read back.
  abbrev pub ReadsBack : Type 0
  ReadsBack =
      (k : Text) (s : ClientState) (st st' : S)
      → state_provider.set_state k s st ≡ (none, st')
      → (state_provider.get_state k st').0 ≡ ok s

  -- Asking for the calls that a token has left ends, and leaves the store alone.
  abbrev pub CreditsKeep : Type 0
  CreditsKeep =
      (w : World S)
      → (k : Credits) × (w' : World S) × (inner_client.get_remaining_credits_for_token w
          ≡ some (k, w'))
        × (w'.store ≡ w.store)

  abbrev with_credits : Credits → World S → World S
  with_credits k w = elim k.remaining [
    | err e ↦ w
    | ok n ↦ record w {
      samples = set_gauge (codes "github_credits") (k.key ∷ k.name ∷ []) n ∷ w.samples;
    }
  ]

  -- The world after the samples of a call of GitHub, but for the remaining calls.
  abbrev sampled : List WorkflowRun → Bool → World S → World S
  sampled jobs failed w = record w { samples = samples_of jobs false failed w.samples }

  instrument-store :
      (jobs : List WorkflowRun) (failed : Bool) (w : World S)
      → CreditsKeep
      → (w' : World S) × (instrument c jobs false failed w ≡ some (tt, w')) × (w'.store ≡ w.store)
  unfolding instrument
  instrument-store jobs failed w keep =
      let (k, w', e, kept) = keep (sampled jobs failed w) in
      elim (Result-cases k.remaining) [
        | inl (n, r) ↦ (with_credits k w', ground arith, ground arith)
        | inr (f, r) ↦ (w', ground arith, kept)
      ]

  module _ (credits_keep : CreditsKeep) (s : ClientState) (st : S) (w w1 w2 : World S)
      (found : state_provider.get_state name w.store ≡ (ok s, st))
      (missed : is_cached c o s (record w { store = st }) ≡ some (false, w1)) where
    get_queued_jobs-refreshed :
        (jobs : List WorkflowRun) (st2 : S)
        → inner_client.get_queued_jobs w1 ≡ some (ok jobs, w2)
        → state_provider.set_state name (refreshed s (o.clock w2.ticks) jobs) w2.store ≡ (none, st2)
        → (w' : World S) × (get_queued_jobs c o w
            ≡ some (
              record { jobs = jobs; retrieval_time = some (o.clock w2.ticks); error = none },
              w',
            ))
          × (w'.store ≡ st2)
    unfolding get_queued_jobs refresh
    get_queued_jobs-refreshed jobs st2 fetched saved =
        let (w', e, kept) =
          instrument-store jobs false (record w2 { ticks = w2.ticks + 1; store = st2 })
            credits_keep in
        (w', ground arith, kept)

    -- After a query fetched jobs and saved them, a later query of the same store returns the same
    -- jobs and time and calls nothing of GitHub, until the window after the fetch is over, the one
    -- for an empty queue if there were no jobs. The provider reads back what was saved, and asking
    -- for the remaining calls ends and leaves the store alone.
    pub get_queued_jobs-again :
        (jobs : List WorkflowRun) (st2 : S) (q : Queue) (w' v : World S)
        → ReadsBack
        → inner_client.get_queued_jobs w1 ≡ some (ok jobs, w2)
        → state_provider.set_state name (refreshed s (o.clock w2.ticks) jobs) w2.store ≡ (none, st2)
        → get_queued_jobs c o w ≡ some (q, w')
        → v.store ≡ w'.store
        → o.clock v.ticks ≤ℤ cache_until c (refreshed s (o.clock w2.ticks) jobs)
        → (v' : World S) × (get_queued_jobs c o v ≡ some (q, v')) × (v'.calls ≡ v.calls)
    get_queued_jobs-again jobs st2 q w' v reads_back fetched saved first same early =
        let s2 : ClientState = refreshed s (o.clock w2.ticks) jobs in
        let (w'', e, kept) = get_queued_jobs-refreshed jobs st2 fetched saved in
        let back = reads_back name s2 w2.store st2 saved in
        let st3 = (state_provider.get_state name v.store).1 in
        let again = get_queued_jobs-cached s2 st3 v (ground arith) refl early in
        (
          record v {
            store = st3;
            ticks = v.ticks + 1;
            samples = samples_of [] true false v.samples;
          },
          cc (again, e),
          refl,
        )

    -- What a query whose call of GitHub fails returns and saves.
    pub get_queued_jobs-failed :
        (e : Text) (saved : Option Text) (st2 : S)
        → inner_client.get_queued_jobs w1 ≡ some (err e, w2)
        → state_provider.set_state name (record s { status = errored }) w2.store ≡ (saved, st2)
        → (w' : World S) × (get_queued_jobs c o w
            ≡ some (
              record {
                jobs = s.last_value;
                retrieval_time = some s.last_request;
                error = some (both_errors e saved);
              },
              w',
            ))
          × (w'.store ≡ st2)
    unfolding get_queued_jobs refresh
    get_queued_jobs-failed e saved st2 fetched stored =
        let (w', i, kept) = instrument-store [] true (record w2 { store = st2 }) credits_keep in
        (w', ground arith, kept)

  -- A state that is marked as errored is not used.
  errored-missed :
      (s : ClientState) (w : World S)
      → is_cached c o (record s { status = errored }) w ≡ some (false, w)
  unfolding is_cached
  errored-missed s w = refl

  -- What a later query returns and saves after a failed one that returned `q`, by what its own call
  -- of GitHub comes to: the time `t` is read after that call.
  abbrev pub retry_queue : Queue → ℤ → Result Text (List WorkflowRun) → Queue
  retry_queue q t (ok jobs) = record { jobs = jobs; retrieval_time = some t; error = none }
  retry_queue q t (err e) = record {
    jobs = q.jobs;
    retrieval_time = q.retrieval_time;
    error = some (both_errors e none);
  }

  abbrev pub retry_state : ClientState → ℤ → Result Text (List WorkflowRun) → ClientState
  retry_state s t (ok jobs) = refreshed s t jobs
  retry_state s t (err e) = record s { status = errored }

  get_queued_jobs-errored :
      (s : ClientState) (st st4 : S) (v v2 : World S) (r : Result Text (List WorkflowRun))
      (q : Queue)
      → CreditsKeep
      → state_provider.get_state name v.store ≡ (ok (record s { status = errored }), st)
      → q.jobs ≡ s.last_value
      → q.retrieval_time ≡ some s.last_request
      → inner_client.get_queued_jobs (record v { store = st }) ≡ some (r, v2)
      → state_provider.set_state name (retry_state s (o.clock v2.ticks) r) v2.store ≡ (none, st4)
      → (v' : World S) × (get_queued_jobs c o v ≡ some (retry_queue q (o.clock v2.ticks) r, v'))
        × (v'.store ≡ st4)
  get_queued_jobs-errored s st st4 v v2 (ok jobs) q keep found same_jobs same_time called saved =
      get_queued_jobs-refreshed keep (record s { status = errored }) st v (record v { store = st })
        v2 found (errored-missed s (record v { store = st })) jobs st4 called saved
  get_queued_jobs-errored s st st4 v v2 (err e) q keep found same_jobs same_time called saved =
      rw same_jobs (
        rw same_time (
          get_queued_jobs-failed keep (record s { status = errored }) st v (record v { store = st })
            v2 found (errored-missed s (record v { store = st })) e none st4 called saved))

  module _ (credits_keep : CreditsKeep) (reads_back : ReadsBack) (s : ClientState) (st : S)
      (w w1 w2 : World S) (found : state_provider.get_state name w.store ≡ (ok s, st))
      (missed : is_cached c o s (record w { store = st }) ≡ some (false, w1)) where
    -- After a query whose call of GitHub failed, which returned the jobs that were remembered with
    -- the error, a later query of the same store calls GitHub again, whatever the time: if that
    -- succeeds, it returns and saves the new jobs, and if it fails too, the same jobs and time as
    -- the first one, with the error of its own call. The provider saves both times and reads back
    -- what was saved, and asking for the remaining calls ends and leaves the store alone.
    pub get_queued_jobs-retries :
        (e : Text) (st2 st4 : S) (q : Queue) (w' v v2 : World S)
        (r : Result Text (List WorkflowRun))
        → inner_client.get_queued_jobs w1 ≡ some (err e, w2)
        → state_provider.set_state name (record s { status = errored }) w2.store ≡ (none, st2)
        → get_queued_jobs c o w ≡ some (q, w')
        → v.store ≡ w'.store
        → inner_client.get_queued_jobs
            (record v { store = (state_provider.get_state name v.store).1 })
          ≡ some (r, v2)
        → state_provider.set_state name (retry_state s (o.clock v2.ticks) r) v2.store ≡ (none, st4)
        → (q.jobs ≡ s.last_value)
          × (q.error ≡ some (both_errors e none))
          × ((v' : World S) × (get_queued_jobs c o v
                ≡ some (retry_queue q (o.clock v2.ticks) r, v'))
              × (v'.store ≡ st4))
    get_queued_jobs-retries e st2 st4 q w' v v2 r fetched stored first same again saved =
        let (w'', i, kept) =
          get_queued_jobs-failed credits_keep s st w w1 w2 found missed e none st2 fetched stored in
        let failed : Queue = record {
          jobs = s.last_value;
          retrieval_time = some s.last_request;
          error = some (both_errors e none);
        } in
        let both : Path (Option (Queue × World S)) (some (failed, w'')) (some (q, w')) =
          sym i ∙ first in
        let back = reads_back name (record s { status = errored }) w2.store st2 stored in
        let queue : failed ≡ q = ap (λ x. (pair_or {A = Queue × World S} (q, w') x).0) both in
        let store : v.store ≡ st2 =
          same ∙ sym (ap (λ x. (pair_or {A = Queue × World S} (q, w') x).1.store) both) ∙ kept in
        let read : state_provider.get_state name v.store
            ≡ (ok (record s { status = errored }), (state_provider.get_state name v.store).1) =
          ap (λ y. (y, (state_provider.get_state name v.store).1))
            (ap (λ x. (state_provider.get_state name x).0) store ∙ back) in
        (
          ap (λ x. x.jobs) (sym queue),
          ap (λ x. x.error) (sym queue),
          get_queued_jobs-errored s (state_provider.get_state name v.store).1 st4 v v2 r q
              credits_keep read (ap (λ x. x.jobs) (sym queue))
              (ap (λ x. x.retrieval_time) (sym queue)) again saved,
        )
