-- ===== src/Operator/Generator/Env/Names.antt =====
-- sargenerator.go: in the map of the variables that are set, each stands under its name.
use github_runner_autoscaler.Common.{
  ◌≡◌, refl, sym, ◌∙◌, Option, none, some, Bool-cases, List, [], ◌∷◌, Text, text_eq, text_eq_iff,
  codes, if◌then◌else◌, arith, inl, inr,
}
use mathlib.Core.Path.{subst}
use github_runner_autoscaler.Common.Dict.{lookup, insert, lookup-insert}
use github_runner_autoscaler.Operator.Resource.{Kubernetes, EnvVar, Runner, ScaledActionRunner}
use github_runner_autoscaler.Operator.Generator.{env_to_set, set_all, labels_env, env_value}
use github_runner_autoscaler.Operator.Generator.Env.{IsNamed}

module _ (K : Kubernetes) where
  abbrev Named : Text → Option (EnvVar K) → Type 0
  Named k none = Unit
  Named k (some e) = e.name ≡ k

  to_entry :
      (k : Text) (o : Option (EnvVar K)) → ((e : EnvVar K) → o ≡ some e → e.name ≡ k) → Named k o
  to_entry k none h = tt
  to_entry k (some e) h = h e refl

  entry_of : (k : Text) (o : Option (EnvVar K)) (e : EnvVar K) → Named k o → o ≡ some e → e.name ≡ k
  entry_of k o e h eq = subst (Named k) eq h

  entry-Named :
      (e : EnvVar K) (k : Text) (o : Option (EnvVar K))
      → Named k o
      → Named k (if text_eq e.name k then some e else o)
  entry-Named e k o h = elim (Bool-cases (text_eq e.name k)) [
    | inl same ↦ rw same ((text_eq_iff e.name k).0 same)
    | inr differs ↦ rw differs h
  ]

  insert-IsNamed :
      (e : EnvVar K) (m : List (Text × EnvVar K)) → IsNamed K m → IsNamed K (insert e.name e m)
  insert-IsNamed e m h k f found =
      entry_of k _ f (entry-Named e k (lookup k m) (to_entry k (lookup k m) (h k)))
        (sym (lookup-insert e.name k e m) ∙ found)

  cons-IsNamed :
      (e : EnvVar K) (m : List (Text × EnvVar K)) → IsNamed K m → IsNamed K ((e.name, e) ∷ m)
  unfolding lookup
  cons-IsNamed e m h k f found =
      entry_of k _ f (entry-Named e k (lookup k m) (to_entry k (lookup k m) (h k))) found

  nil-IsNamed : IsNamed K []
  unfolding lookup
  nil-IsNamed k e found = ground arith

  set_all-IsNamed :
      (es : List (EnvVar K)) (m : List (Text × EnvVar K)) → IsNamed K m → IsNamed K (set_all K es m)
  set_all-IsNamed [] m h = h
  set_all-IsNamed (e ∷ es) m h = set_all-IsNamed es (insert e.name e m) (insert-IsNamed e m h)

  labels_env-IsNamed :
      (t : Text) (m : List (Text × EnvVar K)) → IsNamed K m → IsNamed K (labels_env K t m)
  labels_env-IsNamed [] m h = h
  labels_env-IsNamed (c ∷ s) m h = insert-IsNamed (env_value K (codes "LABELS") (c ∷ s)) m h

  pub env_to_set-IsNamed : (c : ScaledActionRunner K) (r : Runner K) → IsNamed K (env_to_set K c r)
  unfolding env_to_set
  env_to_set-IsNamed c r = labels_env-IsNamed r.runner_labels _ (
      set_all-IsNamed r.env _
        (cons-IsNamed _ _ (cons-IsNamed _ _ (cons-IsNamed _ _ (cons-IsNamed _ _ nil-IsNamed)))))
