-- ===== src/ApiServer/Tests/State.antt =====
-- The state providers: witnesses and tests.
use github_runner_autoscaler.Common.{◌≡◌, refl, Option, none, some, List, [], ◌∷◌, Text, codes, ok}
use github_runner_autoscaler.Common.Dict.{lookup, insert, lookup-insert}
use github_runner_autoscaler.Common.Int.{pos}
use github_runner_autoscaler.ApiServer.State.{
  ClientState, valid, new_client_state, in_memory, new_in_memory,
}
use github_runner_autoscaler.ApiServer.State.Refinement.{
  Op, run, replay, fresh, run-in_memory, state, info, done,
}
use github_runner_autoscaler.ApiServer.State.Refinement.Op.{
  get_state, set_state, get_workflow_info, set_workflow_info,
}
use github_runner_autoscaler.ApiServer.State.Memcached.{Cache, Json, memcached}
use github_runner_autoscaler.ApiServer.State.Memcached.Refinement.{Keeps, reply_of, run-memcached}

abbrev known : ClientState
known = record {
  name = codes "core";
  last_value = [];
  last_request = pos 5;
  status = valid;
  next_forced_scale = none;
}

-- A client is looked up, saved and looked up again, and the same for a repository.
abbrev calls : List Op
calls =
    get_state (codes "core")
    ∷ set_state (codes "core") known
    ∷ get_state (codes "core")
    ∷ get_workflow_info (codes "me/app")
    ∷ set_workflow_info (codes "me/app") []
    ∷ get_workflow_info (codes "me/app")
    ∷ []

run-in_memory_example : run in_memory calls new_in_memory ≡ replay calls fresh
run-in_memory_example = run-in_memory calls

replay_runs :
    replay calls fresh
    ≡ ok (state (new_client_state (codes "core")))
      ∷ ok done
      ∷ ok (state known)
      ∷ ok (info none)
      ∷ ok done
      ∷ ok (info (some []))
      ∷ []
replay_runs = refl

-- A cache that forgets nothing, and an encoding of the two values that are saved.
abbrev dictionary : Cache (List (Text × Text))
dictionary = record {
  get = λ k st. (reply_of (lookup k st), st);
  set = λ k v _ st. (none, insert k v st);
  message = λ _. codes "mc: error";
}

abbrev shown : List (Text × Text) → Text → Option Text
shown st k = lookup k st

abbrev json : Json
json = record {
  marshal_state = λ _. ok (codes "s");
  unmarshal_state = λ _. ok known;
  marshal_infos = λ _. ok (codes "i");
  unmarshal_infos = λ _. ok [];
}

dictionary-Keeps : Keeps dictionary shown
dictionary-Keeps = record {
  get_reply = λ k st. refl;
  contents-get = λ k n st. refl;
  set_reply = λ k v e st. refl;
  contents-set = λ k v n e st. lookup-insert k n v st;
}

shown_empty : (k : Text) → shown [] k ≡ none
unfolding lookup
shown_empty k = refl

run-memcached_example : run (memcached dictionary json) calls [] ≡ replay calls fresh
run-memcached_example =
    run-memcached dictionary json shown dictionary-Keeps calls []
      (
        refl,
        (
          (refl, (codes "s", refl, refl)),
          (refl, (refl, ((refl, (codes "i", refl, refl)), (refl, tt)))),
        ),
      )
      shown_empty
