-- ===== src/ApiServer/State.antt =====
-- apiserver/pkg/state: what is remembered of each client, the interface of its store, and the store
-- in memory. Every operation holds the lock of its map, so it is one step.
pub mod Refinement
pub mod Memcached
use github_runner_autoscaler.Common.{ℕ, Option, none, some, List, [], ◌∷◌, Text, Result, ok, err}
use github_runner_autoscaler.Common.Dict.{lookup, insert}
use github_runner_autoscaler.Common.Int.{ℤ, pos}
use github_runner_autoscaler.ApiServer.World.{WorkflowRun}

pub data Status : Type 0 where
  unset valid errored : Status

pub record ClientState : Type 0 where
  pub name : Text
  pub last_value : List WorkflowRun
  pub last_request : ℤ
  pub status : Status
  pub next_forced_scale : Option ℤ

-- Instants are counted from Go's zero time.
unfoldable pub new_client_state : Text → ClientState
new_client_state name = record {
  name = name;
  last_value = [];
  last_request = pos 0;
  status = unset;
  next_forced_scale = none;
}

pub record WorkflowInfo : Type 0 where
  pub id : ℤ
  pub name : Text
  pub labels : List Text

-- `map[int64]utils.WorkflowInfo`
abbrev pub WorkflowInfos : Type 0
WorkflowInfos = List (ℤ × WorkflowInfo)

-- `IStateProvider`, on a store `S`. An error is given by its text.
pub record StateProvider (S : Type 0) : Type 0 where
  pub get_state : Text → S → Result Text ClientState × S
  pub set_state : Text → ClientState → S → Option Text × S
  pub get_workflow_info : Text → S → Result Text (Option WorkflowInfos) × S
  pub set_workflow_info : Text → WorkflowInfos → S → Option Text × S

-- `InMemoryStateProvider`
pub record Memory : Type 0 where
  pub client_state_data : List (Text × ClientState)
  pub workflow_info : List (Text × WorkflowInfos)

-- The state that was found, or a new one.
abbrev pub found_or_new : Text → Option ClientState → ClientState
found_or_new key none = new_client_state key
found_or_new key (some s) = s

unfoldable pub in_memory : StateProvider Memory
in_memory = record {
  get_state = λ key m. (ok (found_or_new key (lookup key m.client_state_data)), m);
  set_state = λ key s m. (none, record m { client_state_data = insert key s m.client_state_data });
  get_workflow_info = λ key m. (ok (lookup key m.workflow_info), m);
  set_workflow_info =
      λ key infos m. (none, record m { workflow_info = insert key infos m.workflow_info });
}

unfoldable pub new_in_memory_with : List (Text × ClientState) → Memory
new_in_memory_with data_of_clients = record {
  client_state_data = data_of_clients;
  workflow_info = [];
}

unfoldable pub new_in_memory : Memory
unfolding new_in_memory_with
new_in_memory = new_in_memory_with []
