-- ===== src/ApiServer/State/Refinement.antt =====
-- What IStateProvider promises: a map of client states, where a new client has a fresh state, and a
-- map of workflow infos. A provider that refines it gives the same replies to any run of calls.
use github_runner_autoscaler.Common.{
  ◌≡◌, refl, ap, Option, none, some, List, [], ◌∷◌, Text, text_eq, Result, ok, err, if◌then◌else◌,
  All, arith,
}
use github_runner_autoscaler.Common.Dict.{lookup, lookup-insert}
use github_runner_autoscaler.ApiServer.State.{
  ClientState, WorkflowInfos, StateProvider, Memory, in_memory, new_in_memory, new_client_state,
  found_or_new,
}

pub data Op : Type 0 where
  get_state : Text → Op
  set_state : Text → ClientState → Op
  get_workflow_info : Text → Op
  set_workflow_info : Text → WorkflowInfos → Op

pub data Reply : Type 0 where
  state : ClientState → Reply
  info : Option WorkflowInfos → Reply
  done : Reply

-- The two maps.
pub record Maps : Type 0 where
  pub states : Text → ClientState
  pub infos : Text → Option WorkflowInfos

abbrev pub update {ℓ} : {A : Type ℓ} → (Text → A) → Text → A → Text → A
update f k v n = if text_eq k n then v else f n

-- What a call replies, and the maps after it.
abbrev pub specified : Op → Maps → Reply × Maps
specified (get_state k) m = (state (m.states k), m)
specified (set_state k s) m = (done, record m { states = update m.states k s })
specified (get_workflow_info k) m = (info (m.infos k), m)
specified (set_workflow_info k i) m = (done, record m { infos = update m.infos k (some i) })

abbrev pub replay : List Op → Maps → List (Result Text Reply)
replay [] m = []
replay (op ∷ ops) m = ok (specified op m).0 ∷ replay ops (specified op m).1

abbrev pub fresh : Maps
fresh = record { states = new_client_state; infos = λ _. none }

module _ {S : Type 0} (p : StateProvider S) where
  abbrev state_reply : Result Text ClientState → Result Text Reply
  state_reply (ok s) = ok (state s)
  state_reply (err e) = err e

  abbrev info_reply : Result Text (Option WorkflowInfos) → Result Text Reply
  info_reply (ok i) = ok (info i)
  info_reply (err e) = err e

  abbrev done_reply : Option Text → Result Text Reply
  done_reply none = ok done
  done_reply (some e) = err e

  abbrev pub perform : Op → S → Result Text Reply × S
  perform (get_state k) st = let (r, st') = p.get_state k st in (state_reply r, st')
  perform (set_state k s) st = let (r, st') = p.set_state k s st in (done_reply r, st')
  perform (get_workflow_info k) st = let (r, st') = p.get_workflow_info k st in (info_reply r, st')
  perform (set_workflow_info k i) st =
      let (r, st') = p.set_workflow_info k i st in (done_reply r, st')

  -- The replies to a run of calls.
  pub run : List Op → S → List (Result Text Reply)
  run [] st = []
  run (op ∷ ops) st = (perform op st).0 ∷ run ops (perform op st).1

  -- `Shows st m`: the store holds what the maps hold. Calls that are not allowed are left out.
  pub record Refines (Shows : S → Maps → Type 0) (Allowed : Op → Type 0) : Type 0 where
    pub step :
        (op : Op) (st : S) (m : Maps)
        → Allowed op
        → Shows st m
        → ((perform op st).0 ≡ ok (specified op m).0) × Shows (perform op st).1 (specified op m).1

  pub run-Refines :
      {Shows : S → Maps → Type 0} {Allowed : Op → Type 0}
      → Refines Shows Allowed
      → (ops : List Op) (st : S) (m : Maps) → All Allowed ops
      → Shows st m
      → run ops st ≡ replay ops m
  unfolding run
  run-Refines r [] st m all h = refl
  run-Refines r (op ∷ ops) st m (allowed, all) h =
      let (e, h') = r.step op st m allowed h in
      rw (e, run-Refines r ops (perform op st).1 (specified op m).1 all h')

-- What the store in memory holds.
pub record MemoryShows (st : Memory) (m : Maps) : Type 0 where
  pub states_held : (k : Text) → found_or_new k (lookup k st.client_state_data) ≡ m.states k
  pub infos_held : (k : Text) → lookup k st.workflow_info ≡ m.infos k

-- Every call is allowed.
abbrev pub AnyOp : Op → Type 0
AnyOp _ = Unit

All-AnyOp : (ops : List Op) → All AnyOp ops
All-AnyOp [] = tt
All-AnyOp (_ ∷ ops) = (tt, All-AnyOp ops)

in_memory_step :
    (op : Op) (st : Memory) (m : Maps)
    → AnyOp op
    → MemoryShows st m
    → ((perform in_memory op st).0 ≡ ok (specified op m).0)
      × MemoryShows (perform in_memory op st).1 (specified op m).1
unfolding in_memory
in_memory_step (get_state k) st m _ h = (ap (λ s. ok (state s)) (h.states_held k), h)
in_memory_step (get_workflow_info k) st m _ h = (ap (λ i. ok (info i)) (h.infos_held k), h)
in_memory_step (set_state k s) st m _ h = (
  refl,
  record {
    states_held = λ n. ground (arith, lookup-insert k n s st.client_state_data, h.states_held n);
    infos_held = h.infos_held;
  },
)
in_memory_step (set_workflow_info k i) st m _ h = (
  refl,
  record {
    states_held = h.states_held;
    infos_held = λ n. ground (arith, lookup-insert k n i st.workflow_info, h.infos_held n);
  },
)

pub in_memory-Refines : Refines in_memory MemoryShows AnyOp
in_memory-Refines = record { step = in_memory_step }

-- Any run of calls of a new provider in memory replies as a map of states, in which an unknown
-- client has a new state, and a map of workflow infos do.
pub run-in_memory : (ops : List Op) → run in_memory ops new_in_memory ≡ replay ops fresh
unfolding new_in_memory lookup
run-in_memory ops =
    run-Refines in_memory in_memory-Refines ops new_in_memory fresh (All-AnyOp ops)
      (record { states_held = λ k. refl; infos_held = λ k. refl })
