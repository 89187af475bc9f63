-- ===== src/GitHub/Hooks/Laws.antt =====
-- Which hooks run, and in which order (examples/add-runner.js, modules 3862, 9676 and 7704).
use github_runner_autoscaler.Common.Dict.{insert, lookup, lookup-insert}
use github_runner_autoscaler.Common.{
  ℕ, ◌≡◌, refl, ap, ◌∙◌, arith, Text, text_eq, text_eq_refl, text_eq→eq, true, false, List, [], ◌∷◌,
  ◌++◌, some, Bool-cases, inl, inr, err,
}
use github_runner_autoscaler.GitHub.Hooks.{
  Promise, Method, before_hook, hook_of, Registered, Registry, hooks, hooks_of, add_hook,
  drop_first, has, remove_hook, wrap_all, register,
}

module _ {O A E S : Type 0} where
  wrap_all-append :
      (m : Method O A E S) (rs : List (Registered O A E S)) (r : Registered O A E S)
      → wrap_all m (rs ++ (r ∷ [])) ≡ hook_of r.orig (wrap_all m rs)
  unfolding wrap_all
  wrap_all-append m [] r = refl
  wrap_all-append m (q ∷ rs) r = wrap_all-append (hook_of q.orig m) rs r

  hooks-add :
      (registry : Registry O A E S) (name : Text) (r : Registered O A E S)
      → hooks (add_hook registry name r) name ≡ hooks registry name ++ (r ∷ [])
  unfolding hooks add_hook
  hooks-add registry name r =
      rw (lookup-insert name name (hooks registry name ++ (r ∷ [])) registry, text_eq_refl name)

  -- The hook that was added last is the outermost: it is wrapped around the method with all hooks
  -- of that name that were there before.
  pub register-add_hook :
      (registry : Registry O A E S) (name : Text) (r : Registered O A E S) (m : Method O A E S)
      → register (add_hook registry name r) name m ≡ hook_of r.orig (register registry name m)
  unfolding register
  register-add_hook registry name r m =
      rw (hooks-add registry name r) (wrap_all-append m (hooks registry name) r)

  has-append :
      (i : ℕ) (rs : List (Registered O A E S)) (r : Registered O A E S)
      → r.identity ≡ i
      → has i (rs ++ (r ∷ [])) ≡ true
  unfolding has
  has-append i [] r h = ground (arith, h)
  has-append i (q ∷ rs) r h = ground (arith, has-append i rs r h)

  drop_first-append :
      (i : ℕ) (rs : List (Registered O A E S)) (r : Registered O A E S)
      → r.identity ≡ i
      → has i rs ≡ false
      → drop_first i (rs ++ (r ∷ [])) ≡ rs
  unfolding has drop_first
  drop_first-append i [] r h k = ground (arith, h)
  drop_first-append i (q ∷ rs) r h k = ground (arith, drop_first-append i rs r h)

  remove-add :
      (registry : Registry O A E S) (name : Text) (r : Registered O A E S)
      → has r.identity (hooks registry name) ≡ false
      → remove_hook (add_hook registry name r) name r.identity
        ≡ insert name (hooks registry name) (add_hook registry name r)
  unfolding remove_hook
  remove-add registry name r h = rw (
    hooks-add registry name r,
    has-append r.identity (hooks registry name) r refl,
    drop_first-append r.identity (hooks registry name) r refl h,
  )

  hooks-remove-add :
      (registry : Registry O A E S) (name n : Text) (r : Registered O A E S)
      → has r.identity (hooks registry name) ≡ false
      → hooks (remove_hook (add_hook registry name r) name r.identity) n ≡ hooks registry n
  unfolding hooks add_hook
  hooks-remove-add registry name n r h =
      let removed = insert name (hooks registry name) (add_hook registry name r) in
      rw (remove-add registry name r h) (elim (Bool-cases (text_eq name n)) [
        | inl e ↦
            let same : lookup n removed ≡ some (hooks registry name) =
              rw (lookup-insert name n (hooks registry name) (add_hook registry name r), e) in
            ap hooks_of same ∙ ap (λ t. hooks registry t) (text_eq→eq name n e)
        | inr e ↦
            let same : lookup n removed ≡ lookup n registry = rw (
              lookup-insert name n (hooks registry name) (add_hook registry name r),
              lookup-insert name n (hooks registry name ++ (r ∷ [])) registry,
              e,
            ) in
            ap hooks_of same
      ])

  -- A hook that is added and removed again leaves the methods of every name as they were, if its
  -- function was not among the hooks of that name before.
  pub register-remove-add :
      (registry : Registry O A E S) (name n : Text) (r : Registered O A E S) (m : Method O A E S)
      → has r.identity (hooks registry name) ≡ false
      → register (remove_hook (add_hook registry name r) name r.identity) n m
        ≡ register registry n m
  unfolding register
  register-remove-add registry name n r m h = ap (wrap_all m) (hooks-remove-add registry name n r h)

  -- If the function of the before hook that was added last rejects, its rejection is the result,
  -- with the state that it left.
  pub register-before-err :
      (registry : Registry O A E S) (name : Text) (i : ℕ) (f : O → Promise E S (Unit {0}))
      (m : Method O A E S) (options : O) (s s' : S) (e : E)
      → f options s ≡ (err e, s')
      → register
          (add_hook registry name (record { identity = i; orig = before_hook f }))
          name
          m
          options
          s
        ≡ (err e, s')
  unfolding hook_of
  register-before-err registry name i f m options s s' e h =
      ap (λ k. k options s)
        (register-add_hook registry name (record { identity = i; orig = before_hook f }) m)
      ∙ rejected (register registry name m)
    where
      rejected : (k : Method O A E S) → hook_of (before_hook f) k options s ≡ (err e, s')
      rejected k = ground (arith, h)
