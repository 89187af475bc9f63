-- ===== src/ApiServer/Tests/Data.antt =====
-- The floats, the outside world and the configurations of the tests.
use github_runner_autoscaler.Common.{
  ℕ, ◌+◌, ◌*◌, ◌≡◌, refl, true, false, Option, none, some, List, [], ◌∷◌, ◌++◌, if◌then◌else◌,
  text_eq, Text, codes, ok, arith,
}
use github_runner_autoscaler.Common.Int.{ℤ, pos, ◌≤ℤ◌, ltb_ℤ, eqb_ℤ, eqb_ℤ→eq}
use github_runner_autoscaler.ApiServer.World.{World, Outside, WorkflowRun}
use github_runner_autoscaler.ApiServer.Scaling.{Floats, Scaling}
use github_runner_autoscaler.ApiServer.State.{Memory, in_memory}
use github_runner_autoscaler.ApiServer.Workflows.{GithubWorkflowConfig, CacheStore}
use github_runner_autoscaler.ApiServer.Workflows.Laws.{named, StoreLaws}
use github_runner_autoscaler.ApiServer.Host.{Host}

pub lt_of_eq_ℤ : (x y z : ℤ) → eqb_ℤ x y ≡ true → ltb_ℤ x z ≡ ltb_ℤ y z
lt_of_eq_ℤ x y z h = rw (eqb_ℤ→eq x y h) refl

pub round_between_ℤ : (x a b : ℤ) → ltb_ℤ x a ≡ false → ltb_ℤ b x ≡ false → (a ≤ℤ x) × (x ≤ℤ b)
round_between_ℤ x a b l r = ground arith

-- Whole numbers in place of floats, for linear scaling.
abbrev pub whole : Floats
whole = record {
  Float = ℤ;
  of_int = λ a. a;
  parse_float = λ _. pos 0;
  lt = ltb_ℤ;
  eq = eqb_ℤ;
  sub = λ a _. a;
  add = λ a _. a;
  mul = λ a _. a;
  div = λ a _. a;
  power = λ a _. a;
  euler = pos 2;
  round = λ a. a;
  lt_of_int = λ a b _ _. refl;
  eq_of_int = λ a b _ _. refl;
  lt_of_eq = lt_of_eq_ℤ;
  round_of_int = λ a _. refl;
  round_between = λ x a b _ _ _ l r. round_between_ℤ x a b l r;
}

abbrev pub linear : Scaling whole
linear = record {
  min_workers = pos 1;
  max_workers = pos 4;
  scale_factor = pos 0;
  linear = true;
  force_scale_up_window = pos 1200;
  force_scale_up_frequency = pos 50000;
}

abbrev pub waiting_run : WorkflowRun
waiting_run = record { id = pos 1; workflow_id = some (pos 7); status = some (codes "queued") }

-- One waiting run of the workflow 7, which runs on `deploy`; the clock ticks by 100.
abbrev pub outside : Outside
outside = record {
  clock = λ n. pos (100000 + 100 * n);
  random = λ n. n;
  runs = λ _. ok (waiting_run ∷ []);
  workflows = λ _. ok (
      record { id = some (pos 7); name = some (codes "main"); path = some (codes "main.yml") }
      ∷ []);
  contents = λ _. ok ((codes "deploy" ∷ []) ∷ []);
  credits = λ _. ok (pos 4999);
}

abbrev pub world_of : Memory → World Memory
world_of m = record { store = m; ticks = 0; draws = 0; calls = []; samples = [] }

abbrev pub core : GithubWorkflowConfig whole
core = record {
  name = codes "core";
  namespace = codes "runners";
  token = codes "abcdefghij";
  owner = codes "me";
  repository = codes "app";
  scaling = linear;
}

-- A store as the list of all configurations that were put into it, of which the last one counts.
abbrev pub log_store : CacheStore (List (GithubWorkflowConfig whole)) (GithubWorkflowConfig whole)
log_store = record {
  replace = λ wfs _. wfs;
  add = λ wf c. c ++ (wf ∷ []);
  update = λ wf c. c ++ (wf ∷ []);
  delete = λ wf c. c;
  list = λ c. c;
  get_by_key = λ key c. record { item = named key c none; error = none };
}

named-append :
    (key : Text) (wfs : List (GithubWorkflowConfig whole)) (wf : GithubWorkflowConfig whole)
    (found : Option (GithubWorkflowConfig whole))
    → named key (wfs ++ (wf ∷ [])) found
      ≡ (if text_eq wf.name key then some wf else named key wfs found)
named-append key [] wf found = refl
named-append key (x ∷ wfs) wf found =
    named-append key wfs wf (if text_eq x.name key then some x else found)

pub log_store_laws : StoreLaws whole log_store
log_store_laws = record {
  get_error = λ key c. refl;
  get-replace = λ key wfs c. refl;
  get-update = λ key wf c. named-append key c wf none;
}

abbrev pub empty_memory : Memory
empty_memory = record { client_state_data = []; workflow_info = [] }

abbrev pub host : Host whole Memory (List (GithubWorkflowConfig whole))
host = record {
  cache_window = pos 60000;
  cache_window_when_empty = pos 30000;
  store = log_store;
  workflows = core ∷ [];
  state_provider = in_memory;
}

abbrev pub sum224 : Text → List ℕ
sum224 _ = 1 ∷ 2 ∷ 3 ∷ []
