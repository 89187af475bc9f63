-- ===== src/Operator/Generator/Env.antt =====
-- sargenerator.go: setting the variables of a container again changes nothing.
pub mod Names
use github_runner_autoscaler.Common.{
  ◌≡◌, refl, sym, ap, ◌∙◌, true, false, ◌||◌, Option, none, some, Option-cases, Bool-cases,
  append-nil, List, [], ◌∷◌, ◌++◌, map, Text, text_eq, text_eq_iff, text_eq_refl, codes,
  if◌then◌else◌, arith, inl, inr,
}
use mathlib.Core.Path.{subst}
use github_runner_autoscaler.Common.Dict.{lookup, insert, lookup-insert}
use github_runner_autoscaler.Operator.Resource.{
  Kubernetes, IsReflexive, EnvVar, Runner, ScaledActionRunner,
}
use github_runner_autoscaler.Operator.Generator.{
  delete, env_same, source_equal, visit_env, set_env, Visited, env_to_set, set_all, labels_env,
  env_value,
}

module _ {A : Type 0} where
  pub lookup-delete :
      (k n : Text) (m : List (Text × A))
      → lookup n (delete k m) ≡ (if text_eq k n then none else lookup n m)
  unfolding lookup delete
  lookup-delete k n [] = ground arith
  lookup-delete k n ((j, a) ∷ m) =
      ground (arith, lookup-delete k n m, text_eq_iff j k, text_eq_iff j n, text_eq_iff k n)

  -- Each key stands once.
  unfoldable pub HasKeysOnce : List (Text × A) → Type 0
  HasKeysOnce [] = Unit
  HasKeysOnce ((k, a) ∷ m) = (lookup k m ≡ none) × HasKeysOnce m

  abbrev pub IsSameMap : List (Text × A) → List (Text × A) → Type 0
  IsSameMap l m = (k : Text) → lookup k l ≡ lookup k m

  -- What a range over a map visits: each entry once, in some order.
  abbrev pub IsRange : (List (Text × A) → List (Text × A)) → Type 0
  IsRange order = (m : List (Text × A)) → HasKeysOnce (order m) × IsSameMap (order m) m

  pub empty-lookup : (m : List (Text × A)) → ((k : Text) → lookup k m ≡ none) → m ≡ []
  unfolding lookup
  empty-lookup [] h = refl
  empty-lookup ((k, a) ∷ m) h = let e = h k in ground (arith, text_eq_refl k)

module _ (K : Kubernetes) where
  -- A variable stands under its name.
  abbrev pub IsNamed : List (Text × EnvVar K) → Type 0
  IsNamed m = (k : Text) (e : EnvVar K) → lookup k m ≡ some e → e.name ≡ k

  pub delete-IsNamed : (k : Text) (m : List (Text × EnvVar K)) → IsNamed m → IsNamed (delete k m)
  delete-IsNamed k m h n e eq = let l = lookup-delete k n m in h n e (ground arith)

  source_equal_refl : IsReflexive K → (s : Option K.EnvVarSource) → source_equal K s s ≡ true
  source_equal_refl R none = refl
  source_equal_refl R (some s) = R.source_refl s

  pub env_same_refl : IsReflexive K → (e : EnvVar K) → env_same K e e ≡ true
  env_same_refl R e =
      rw (text_eq_refl e.name) (rw (text_eq_refl e.value) (source_equal_refl R e.value_from))

  -- The visit of a variable that is not to be set, of one that has its value, and of another.
  module _ (e : EnvVar K) (es : List (EnvVar K)) (m : List (Text × EnvVar K)) where
    pub visit_env-absent :
        lookup e.name m ≡ none
        → let v = visit_env K es m in visit_env K (e ∷ es) m ≡ record v { env = e ∷ v.env }
    unfolding visit_env
    visit_env-absent absent = rw (absent, visit_env) refl

    module _ (new : EnvVar K) (found : lookup e.name m ≡ some new) where
      pub visit_env-same :
          env_same K e new ≡ true
          → let v = visit_env K es (delete e.name m) in
            visit_env K (e ∷ es) m ≡ record v { env = e ∷ v.env }
      unfolding visit_env
      visit_env-same same = rw (found, visit_env) (rw same refl)

      pub visit_env-changed :
          env_same K e new ≡ false
          → let v = visit_env K es (delete e.name m) in
            visit_env K (e ∷ es) m ≡ record { env = new ∷ v.env; left = v.left; modified = true }
      unfolding visit_env
      visit_env-changed changed = rw (found, visit_env) (rw changed refl)

  -- A variable that was set is found, and has its value.
  pub visit_env-set :
      (R : IsReflexive K) (e : EnvVar K) (k : Text) (es : List (EnvVar K))
      → (m : List (Text × EnvVar K)) → e.name ≡ k
      → lookup k m ≡ some e
      → let v = visit_env K es (delete k m) in visit_env K (e ∷ es) m ≡ record v { env = e ∷ v.env }
  visit_env-set R e k es m name found =
      visit_env-same e es m e (ap (λ n. lookup n m) name ∙ found) (env_same_refl R e)
      ∙ ap {A = Visited K} (λ v. record v { env = e ∷ v.env })
          (ap (λ n. visit_env K es (delete n m)) name)

  -- A second visit of what the first one left replaces nothing and leaves the same rest.
  pub visit_env-again :
      (R : IsReflexive K) (es : List (EnvVar K)) (m : List (Text × EnvVar K))
      → IsNamed m
      → let v = visit_env K es m in
        visit_env K v.env m ≡ record { env = v.env; left = v.left; modified = false }
  unfolding visit_env
  visit_env-again R [] m h = refl
  visit_env-again R (e ∷ es) m h = elim (Option-cases (lookup e.name m)) [
    | inl absent ↦
        let v = visit_env K es m in
        rw (visit_env-absent e es m absent)
          (rw (visit_env-absent e v.env m absent) (rw (visit_env-again R es m h) refl))
    | inr (new, found) ↦
        let v = visit_env K es (delete e.name m) in
        let again = visit_env-again R es (delete e.name m) (delete-IsNamed e.name m h) in
        elim (Bool-cases (env_same K e new)) [
          | inl same ↦
              rw (visit_env-same e es m new found same)
                (rw (visit_env-same e v.env m new found same) (rw again refl))
          | inr changed ↦
              rw (visit_env-changed e es m new found changed)
                (rw (visit_env-set R new e.name v.env m (h e.name new found) found) (rw again refl))
        ]
  ]

  pub visit_env-append :
      (es fs : List (EnvVar K)) (m : List (Text × EnvVar K))
      → let v = visit_env K es m in
        let w = visit_env K fs v.left in
        visit_env K (es ++ fs) m
        ≡ record { env = v.env ++ w.env; left = w.left; modified = v.modified || w.modified }
  unfolding visit_env
  visit_env-append [] fs m = refl
  visit_env-append (e ∷ es) fs m = elim (Option-cases (lookup e.name m)) [
    | inl absent ↦
        rw (visit_env-absent e es m absent)
          (rw (visit_env-absent e (es ++ fs) m absent) (rw (visit_env-append es fs m) refl))
    | inr (new, found) ↦
        let rest = visit_env-append es fs (delete e.name m) in
        elim (Bool-cases (env_same K e new)) [
          | inl same ↦
              rw (visit_env-same e es m new found same)
                (rw (visit_env-same e (es ++ fs) m new found same) (rw rest refl))
          | inr changed ↦
              rw (visit_env-changed e es m new found changed)
                (rw (visit_env-changed e (es ++ fs) m new found changed) (rw rest refl))
        ]
  ]

  pub left-IsNamed :
      (es : List (EnvVar K)) (m : List (Text × EnvVar K))
      → IsNamed m
      → IsNamed (visit_env K es m).left
  unfolding visit_env
  left-IsNamed [] m h = h
  left-IsNamed (e ∷ es) m h = elim (Option-cases (lookup e.name m)) [
    | inl absent ↦ rw (visit_env-absent e es m absent) (left-IsNamed es m h)
    | inr (new, found) ↦
        let rest = left-IsNamed es (delete e.name m) (delete-IsNamed e.name m h) in
        elim (Bool-cases (env_same K e new)) [
          | inl same ↦ rw (visit_env-same e es m new found same) rest
          | inr changed ↦ rw (visit_env-changed e es m new found changed) rest
        ]
  ]

  abbrev variables : List (Text × EnvVar K) → List (EnvVar K)
  variables l = map (λ (_, e). e) l

  pub head_found :
      (k : Text) (e : EnvVar K) (l m : List (Text × EnvVar K))
      → IsSameMap ((k, e) ∷ l) m
      → lookup k m ≡ some e
  unfolding lookup
  head_found k e l m same = let s = same k in ground (arith, text_eq_refl k)

  pub tail-IsSameMap :
      (k : Text) (e : EnvVar K) (l m : List (Text × EnvVar K))
      → HasKeysOnce ((k, e) ∷ l)
      → IsSameMap ((k, e) ∷ l) m
      → IsSameMap l (delete k m)
  unfolding lookup HasKeysOnce
  tail-IsSameMap k e l m once same n =
      let d = lookup-delete k n m in
      let s = same n in let o = once.0 in ground (arith, text_eq_iff k n)

  -- A visit of the entries of a map takes them all.
  pub visit_env-entries :
      (R : IsReflexive K) (l m : List (Text × EnvVar K))
      → HasKeysOnce l
      → IsSameMap l m
      → IsNamed m
      → visit_env K (variables l) m ≡ record { env = variables l; left = []; modified = false }
  unfolding visit_env HasKeysOnce lookup
  visit_env-entries R [] m once same h = rw (empty-lookup m (λ k. sym (same k))) refl
  visit_env-entries R ((k, e) ∷ l) m once same h =
      let found = head_found k e l m same in
      let name = h k e found in
      let rest =
        visit_env-entries R l (delete k m) once.1 (tail-IsSameMap k e l m once same)
          (delete-IsNamed k m h) in
      visit_env-set R e k (variables l) m name found
      ∙ ap {A = Visited K} (λ v. record v { env = e ∷ v.env }) rest

  pub order-nil :
      (order : List (Text × EnvVar K) → List (Text × EnvVar K)) → IsRange order → order [] ≡ []
  unfolding lookup
  order-nil order range = empty-lookup (order []) (λ k. (range []).1 k)

  -- Setting the variables again replaces and adds nothing.
  pub set_env-again :
      (R : IsReflexive K)
      → (order : List (Text × EnvVar K) → List (Text × EnvVar K)) (m : List (Text × EnvVar K))
      → (env : List (EnvVar K)) → IsRange order
      → IsNamed m
      → let (set, _) = set_env K order m env in set_env K order m set ≡ (set, false)
  unfolding set_env
  set_env-again R order m env range h =
      let v = visit_env K env m in
      let again = visit_env-again R env m h in
      let rest =
        visit_env-entries R (order v.left) v.left (range v.left).0 (range v.left).1
          (left-IsNamed env m h) in
      let whole = visit_env-append v.env (variables (order v.left)) m in
      rw whole (
        rw again (
          rw rest (
            rw (order-nil order range)
              (ap (λ l. (l, false)) (append-nil (v.env ++ variables (order v.left)))))))
