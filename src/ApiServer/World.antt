-- ===== src/ApiServer/World.antt =====
-- What the metrics API server works in (apiserver/pkg): the readings of the clock, the random draws,
-- the calls of GitHub, the samples of the metrics and the store of its state provider. A text is
-- the list of the bytes of a Go string; instants and durations are in nanoseconds.
use github_runner_autoscaler.Common.{ℕ, ◌+◌, ◌%◌, Option, none, some, List, ◌∷◌, Text, Result}
use github_runner_autoscaler.Common.Int.{ℤ}

-- github.WorkflowRun, as far as it is read; its fields are pointers, which may be nil.
pub record WorkflowRun : Type 0 where
  pub id : ℤ
  pub workflow_id : Option ℤ
  pub status : Option Text

-- github.Workflow, as far as it is read.
pub record Workflow : Type 0 where
  pub id : Option ℤ
  pub name : Option Text
  pub path : Option Text

-- A call of GitHub, with the token that authorises it.
pub data Call : Type 0 where
  list_workflow_runs : Text → Text → Text → ℕ → Call
  list_workflows : Text → Text → Text → Call
  download_contents : Text → Text → Text → Text → Call
  rate_limits : Text → Call

-- A sample of a metric: its name, the values of its labels, and its value.
pub data Sample : Type 0 where
  set_gauge : Text → List Text → ℤ → Sample
  increment : Text → List Text → Sample

-- What is outside: the readings of the clock and the random numbers, by how often they were asked
-- for, and the answers of GitHub, by the calls so far. A downloaded workflow is given by the
-- `runs-on` lists of its jobs, as the YAML package reads them, or the error of reading it.
pub record Outside : Type 0 where
  pub clock : ℕ → ℤ
  pub random : ℕ → ℕ
  pub runs : List Call → Result Text (List WorkflowRun)
  pub workflows : List Call → Result Text (List Workflow)
  pub contents : List Call → Result Text (List (List Text))
  pub credits : List Call → Result Text ℤ

pub record World (S : Type 0) : Type 0 where
  pub store : S
  pub ticks : ℕ
  pub draws : ℕ
  pub calls : List Call
  pub samples : List Sample

-- `none` means that the code panicked.
abbrev pub M : Type 0 → Type 0 → Type 0
M S A = World S → Option (A × World S)

infixl 5 ◌>>=◌ ◌>>◌
abbrev pub ◌>>=◌ : {S A B : Type 0} → M S A → (A → M S B) → M S B
◌>>=◌ m f w = elim (m w) [ none ↦ none | some (a, w') ↦ f a w' ]

abbrev pub ◌>>◌ : {S B : Type 0} → M S (Unit {0}) → M S B → M S B
m >> k = m >>= λ _. k

module _ {S : Type 0} where
  abbrev pub pure : {A : Type 0} → A → M S A
  pure a w = some (a, w)

  abbrev pub panic : {A : Type 0} → M S A
  panic w = none

  -- `*p`
  abbrev pub deref : {A : Type 0} → Option A → M S A
  deref none w = none
  deref (some a) w = some (a, w)

  -- `time.Now().UTC()`
  abbrev pub now : Outside → M S ℤ
  now o w = some (o.clock w.ticks, record w { ticks = w.ticks + 1 })

  -- `rand.Intn(n)`
  abbrev pub intn : Outside → ℕ → M S ℕ
  intn o n w = some (o.random w.draws % n, record w { draws = w.draws + 1 })

  -- A call of GitHub, and its answer.
  abbrev pub ask : {A : Type 0} → (List Call → A) → Call → M S A
  ask answer c w = some (answer (c ∷ w.calls), record w { calls = c ∷ w.calls })

  abbrev pub sample : Sample → M S (Unit {0})
  sample s w = some (tt, record w { samples = s ∷ w.samples })

  -- An operation on the store.
  abbrev pub on_store : {A : Type 0} → (S → A × S) → M S A
  on_store f w = let (a, s) = f w.store in some (a, record w { store = s })
