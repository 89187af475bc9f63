-- ===== src/ApiServer/Tests/Client.antt =====
-- The client that remembers the queue, and the GitHub client: witnesses and tests.
use mathlib.Core.List.Permᴰ.{swap}
use github_runner_autoscaler.Common.{◌≡◌, refl, none, some, [], ◌∷◌, codes, ok, err, arith}
use github_runner_autoscaler.Common.Int.{pos, ◌+ℤ◌}
use github_runner_autoscaler.Common.Dict.{lookup, insert}
use github_runner_autoscaler.ApiServer.World.{World, Outside, list_workflow_runs, rate_limits}
use github_runner_autoscaler.ApiServer.State.{
  ClientState, Memory, in_memory, new_client_state, errored, valid,
}
use github_runner_autoscaler.ApiServer.Client.{
  Client, Queue, get_queued_jobs, cache_until, is_cached,
}
use github_runner_autoscaler.ApiServer.Client.Laws.{
  get_queued_jobs-again, get_queued_jobs-retries, retry_queue,
}
use github_runner_autoscaler.ApiServer.GithubClient.{
  process_workflow, tokenize_token, get_remaining_credits_for_token, new_github_client,
  fetch_queued_jobs, stateless_client, filter_jobs_by_status,
}
use github_runner_autoscaler.ApiServer.GithubClient.Labels.{process_workflow-perm}
use github_runner_autoscaler.ApiServer.Host.{get_client}
use github_runner_autoscaler.ApiServer.Host.Stores.{get_client-CreditsKeep, get_client-ReadsBack}
use github_runner_autoscaler.ApiServer.Tests.Data.{
  whole, outside, waiting_run, world_of, core, host, empty_memory, sum224,
}

abbrev client : Client Memory
client = get_client whole outside sum224 host core

abbrev runs_call : World Memory → World Memory
runs_call w = record w {
  calls = list_workflow_runs core.token core.owner core.repository 100 ∷ w.calls;
}

-- The first query finds nothing remembered.
abbrev start : World Memory
start = world_of empty_memory

abbrev fetched_queue : Queue
fetched_queue = record { jobs = waiting_run ∷ []; retrieval_time = some (pos 100000); error = none }

after_first :
    (w' : World Memory) × (get_queued_jobs client outside start ≡ some (fetched_queue, w'))
unfolding get_queued_jobs get_client in_memory lookup insert new_client_state stateless_client
    fetch_queued_jobs get_remaining_credits_for_token new_github_client
after_first = (_, refl)

-- The same store a little later.
abbrev soon : World Memory
soon = record start { store = (after_first.0).store; ticks = 5 }

abbrev new_state : ClientState
new_state = new_client_state (codes "core")

abbrev saved : Memory
saved = record empty_memory {
  client_state_data =
      (
        codes "core",
        record new_state {
          last_request = pos 100000;
          last_value = waiting_run ∷ [];
          status = valid;
        },
      )
      ∷ [];
}

get_queued_jobs-again_example :
    (v' : World Memory) × (get_queued_jobs client outside soon ≡ some (fetched_queue, v'))
    × (v'.calls ≡ soon.calls)
unfolding get_client in_memory lookup insert new_client_state is_cached stateless_client
    fetch_queued_jobs filter_jobs_by_status cache_until ◌+ℤ◌ new_github_client
get_queued_jobs-again_example =
    get_queued_jobs-again outside client (get_client-CreditsKeep whole outside sum224 host core)
      new_state empty_memory start start (runs_call start) refl refl (waiting_run ∷ []) saved
      fetched_queue after_first.0 soon (get_client-ReadsBack whole outside sum224 host core refl)
      refl refl after_first.1 refl (omega arith)

-- A GitHub that cannot be reached.
abbrev offline : Outside
offline = record outside { runs = λ _. err (codes "no network") }

abbrev offline_client : Client Memory
offline_client = get_client whole offline sum224 host core

abbrev errored_memory : Memory
errored_memory = record empty_memory {
  client_state_data = (codes "core", record new_state { status = errored }) ∷ [];
}

abbrev failed_queue : Queue
failed_queue = record {
  jobs = [];
  retrieval_time = some (pos 0);
  error = some (codes "no network");
}

after_failure :
    (w' : World Memory) × (get_queued_jobs offline_client offline start ≡ some (failed_queue, w'))
unfolding get_queued_jobs get_client in_memory lookup insert new_client_state stateless_client
    fetch_queued_jobs get_remaining_credits_for_token new_github_client
after_failure = (_, refl)

-- The same store a little later.
abbrev retried : World Memory
retried = record start { store = (after_failure.0).store; ticks = 5 }

get_queued_jobs-retries_example :
    (failed_queue.jobs ≡ new_state.last_value)
    × (failed_queue.error ≡ some (codes "no network"))
    × ((v' : World Memory) × (get_queued_jobs offline_client offline retried
          ≡ some (
            retry_queue offline offline_client failed_queue
                (offline.clock 5)
                (err (codes "no network")),
            v',
          ))
        × (v'.store ≡ errored_memory))
unfolding get_queued_jobs get_client in_memory lookup insert new_client_state is_cached
    stateless_client fetch_queued_jobs get_remaining_credits_for_token new_github_client
    after_failure
get_queued_jobs-retries_example =
    get_queued_jobs-retries offline offline_client
      (get_client-CreditsKeep whole offline sum224 host core)
      (get_client-ReadsBack whole offline sum224 host core refl) new_state empty_memory start start
      (runs_call start) refl refl (codes "no network") errored_memory errored_memory failed_queue
      after_failure.0 retried (runs_call retried) (err (codes "no network")) refl refl
      after_failure.1 refl refl refl

process_workflow-perm_example :
    process_workflow ((codes "b" ∷ codes "a" ∷ []) ∷ (codes "c" ∷ []) ∷ [])
    ≡ process_workflow ((codes "c" ∷ []) ∷ (codes "b" ∷ codes "a" ∷ []) ∷ [])
process_workflow-perm_example =
    process_workflow-perm ((codes "b" ∷ codes "a" ∷ []) ∷ (codes "c" ∷ []) ∷ [])
      ((codes "c" ∷ []) ∷ (codes "b" ∷ codes "a" ∷ []) ∷ []) ∣ swap refl refl ∣₁

process_workflow_runs :
    process_workflow ((codes "foo" ∷ codes "bar" ∷ []) ∷ (codes "foo" ∷ codes "baz" ∷ []) ∷ [])
    ≡ codes "bar" ∷ codes "baz" ∷ codes "foo" ∷ []
unfolding process_workflow
process_workflow_runs = refl

-- The key and the name of the remaining calls of a new client are those of the empty text.
get_remaining_credits_runs :
    get_remaining_credits_for_token outside
      (new_github_client (codes "abcdefghij") (codes "me") (codes "app"))
      sum224
      start
    ≡ some (
      record { key = (tokenize_token sum224 []).0; name = []; remaining = ok (pos 4999) },
      record start { calls = rate_limits (codes "abcdefghij") ∷ [] },
    )
unfolding get_remaining_credits_for_token new_github_client
get_remaining_credits_runs = refl
