-- ===== src/GitHub/Hooks.antt =====
-- before-after-hook (examples/add-runner.js, modules 3108, 3862, 9676 and 7704): hooks that are
-- wrapped around a request. Promises are run in order: an action takes a state and leaves one.
pub mod Laws
use github_runner_autoscaler.Common.Dict.{insert, lookup}
use github_runner_autoscaler.Common.{
  ℕ, suc, Text, text_eq, Bool, ◌||◌, true, false, List, [], ◌∷◌, ◌++◌, Option, none, some,
  if◌then◌else◌, ◌==◌, Result, ok, err,
}

-- What a promise comes to.
abbrev pub Promise : Type 0 → Type 0 → Type 0 → Type 0
Promise E S A = S → Result E A × S

abbrev pub and_then : {E S A B : Type 0} → Promise E S A → (A → Promise E S B) → Promise E S B
and_then m f s = let r = m s in elim (r.0) [ ok a ↦ f a r.1 | err e ↦ (err e, r.1) ]

abbrev pub catch_error : {E S A : Type 0} → Promise E S A → (E → Promise E S A) → Promise E S A
catch_error m f s = let r = m s in elim (r.0) [ ok a ↦ (ok a, r.1) | err e ↦ f e r.1 ]

abbrev pub resolve : {E S A : Type 0} → A → Promise E S A
resolve a s = (ok a, s)

module _ (Options Answer Error State : Type 0) where
  abbrev pub Method : Type 0
  Method = Options → Promise Error State Answer

  -- A function that a user adds, by the kind that it is added under.
  pub data Original : Type 0 where
    before_hook : (Options → Promise Error State (Unit {0})) → Original
    after_hook : (Answer → Options → Promise Error State (Unit {0})) → Original
    error_hook : (Error → Options → Promise Error State Answer) → Original
    wrap_hook : (Method → Options → Promise Error State Answer) → Original

  -- An entry of the registry. Functions are compared by identity, which is a number here.
  pub record Registered : Type 0 where
    pub identity : ℕ
    pub orig : Original

  abbrev pub Registry : Type 0
  Registry = List (Text × List Registered)

module _ {O A E S : Type 0} where
  -- The hook that `addHook` makes of the function.
  unfoldable pub hook_of : Original O A E S → Method O A E S → Method O A E S
  hook_of (before_hook f) method options = and_then (f options) (λ u. method options)
  hook_of (after_hook f) method options =
      and_then (method options) (λ result. and_then (f result options) (λ u. resolve result))
  hook_of (error_hook f) method options = catch_error (method options) (λ e. f e options)
  hook_of (wrap_hook f) method options = f method options

  abbrev pub hooks_of : Option (List (Registered O A E S)) → List (Registered O A E S)
  hooks_of none = []
  hooks_of (some hs) = hs

  unfoldable pub hooks : Registry O A E S → Text → List (Registered O A E S)
  hooks registry name = hooks_of (lookup name registry)

  -- `addHook`
  unfoldable pub add_hook : Registry O A E S → Text → Registered O A E S → Registry O A E S
  add_hook registry name r = insert name (hooks registry name ++ (r ∷ [])) registry

  -- `indexOf` and `splice`: the first entry of the function goes.
  pub drop_first : ℕ → List (Registered O A E S) → List (Registered O A E S)
  drop_first i [] = []
  drop_first i (r ∷ rs) = if r.identity == i then rs else r ∷ drop_first i rs

  unfoldable pub has : ℕ → List (Registered O A E S) → Bool
  has i [] = false
  has i (r ∷ rs) = r.identity == i || has i rs

  -- `removeHook`
  pub remove_hook : Registry O A E S → Text → ℕ → Registry O A E S
  remove_hook registry name i =
      if has i (hooks registry name)
      then insert name (drop_first i (hooks registry name)) registry
      else registry

  -- The fold over the registered hooks.
  unfoldable pub wrap_all : Method O A E S → List (Registered O A E S) → Method O A E S
  wrap_all method [] = method
  wrap_all method (r ∷ rs) = wrap_all (hook_of r.orig method) rs

  -- `register` for one name
  unfoldable pub register : Registry O A E S → Text → Method O A E S → Method O A E S
  register registry name method = wrap_all method (hooks registry name)

  -- `register` for an array of names: the first one is the outermost.
  pub register_all : Registry O A E S → List Text → Method O A E S → Method O A E S
  register_all registry [] method = method
  register_all registry (n ∷ names) method =
      register registry n (register_all registry names method)
