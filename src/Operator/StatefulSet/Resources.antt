-- ===== src/Operator/StatefulSet/Resources.antt =====
-- scaledactionrunner_controller.go: which resources of the runners a change is noticed of.
use github_runner_autoscaler.Common.{
  ◌≡◌, refl, ap, sym, ◌∙◌, Bool, true, false, Option, none, some, Option-cases, inl, inr, List,
  Text, codes, arith, if◌then◌else◌,
}
use github_runner_autoscaler.Operator.Resource.{
  Kubernetes, EnvVar, ResourceList, Runner, ScaledActionRunner, ◌>>=◌,
}
use github_runner_autoscaler.Operator.Generator.{
  Container, ClaimTemplate, StatefulSet, get_volumes, env_to_set,
}
use github_runner_autoscaler.Operator.StatefulSet.{
  quantity, resources_equal, Parts, parts_of, uncons, is_current, updated_set,
  get_scaled_set_updates,
}

module _ (K : Kubernetes) where
  -- The same cpu and the same memory are asked for.
  abbrev pub IsSameSize : ResourceList K → ResourceList K → Type 0
  IsSameSize l m =
      (quantity K (codes "cpu") l ≡ quantity K (codes "cpu") m)
      × (quantity K (codes "memory") l ≡ quantity K (codes "memory") m)

  -- The runners ask for these resources.
  abbrev pub asking :
      Runner K → ResourceList K → ResourceList K → ScaledActionRunner K → ScaledActionRunner K
  asking r requests limits config = record config {
    spec = record config.spec {
      runner = some (record r { requests = some requests; limits = some limits });
    };
  }

  resources_equal-size :
      (old l m : ResourceList K)
      → IsSameSize l m
      → resources_equal K old l ≡ resources_equal K old m
  resources_equal-size old l m (e, f) = rw e (rw f refl)

  module _ (order : List (Text × EnvVar K) → List (Text × EnvVar K)) (old : StatefulSet K)
      (config : ScaledActionRunner K) (hash : Text) where
    abbrev sized : ResourceList K → ResourceList K → Parts K → Parts K
    sized l m p = record p {
      runner = record p.runner { requests = some l; limits = some m };
      requests = l;
      limits = m;
    }

    abbrev map_parts : (Parts K → Parts K) → Option (Parts K) → Option (Parts K)
    map_parts f none = none
    map_parts f (some p) = some (f p)

    -- The parts of sets whose runners ask for other resources are the same but for these.
    abbrev parts_with :
        Runner K
        → ResourceList K
        → ResourceList K
        → Option K.Claim
        → Option Bool
        → Option (Container K × List (Container K))
        → Option (ClaimTemplate K × List (ClaimTemplate K))
        → Option (Parts K)
    parts_with r l m claim mount containers templates = do
      c ← claim
      b ← mount
      (k, ks) ← containers
      (t, ts) ← templates
      some (record {
        runner = record r { requests = some l; limits = some m };
        claim = c;
        requests = l;
        limits = m;
        mount = b;
        container = k;
        containers = ks;
        template = t;
        templates = ts;
      })

    parts_with-sized :
        (r : Runner K) (l m l' m' : ResourceList K) (claim : Option K.Claim) (mount : Option Bool)
        → (containers : Option (Container K × List (Container K)))
        → (templates : Option (ClaimTemplate K × List (ClaimTemplate K)))
        → parts_with r l' m' claim mount containers templates
          ≡ map_parts (sized l' m') (parts_with r l m claim mount containers templates)
    parts_with-sized r l m l' m' none mount containers templates = refl
    parts_with-sized r l m l' m' (some c) none containers templates = refl
    parts_with-sized r l m l' m' (some c) (some b) none templates = refl
    parts_with-sized r l m l' m' (some c) (some b) (some k) none = refl
    parts_with-sized r l m l' m' (some c) (some b) (some k) (some t) = refl

    is_current-sized :
        (p : Parts K) (r : Runner K) (l m l' m' : ResourceList K)
        → IsSameSize l l'
        → IsSameSize m m'
        → is_current K order (sized l' m' p) old (asking r l' m' config) hash
          ≡ is_current K order (sized l m p) old (asking r l m config) hash
    unfolding is_current get_volumes env_to_set
    is_current-sized p r l m l' m' h h' =
        rw (resources_equal-size p.container.requests l l' h)
          (rw (resources_equal-size p.container.limits m m' h') refl)

    abbrev updates : ScaledActionRunner K → Option (Option (StatefulSet K))
    updates c = get_scaled_set_updates K order old c hash

    module _ (r : Runner K) (l m l' m' : ResourceList K) where
      abbrev parts : ResourceList K → ResourceList K → Option (Parts K)
      parts requests limits = parts_of K old (asking r requests limits config)

      parts-sized_at : (a b : ResourceList K) → parts a b ≡ map_parts (sized a b) (parts l m)
      parts-sized_at a b =
          parts_with-sized r l m a b r.work_volume_claim_template r.mount_docker_sock
            (uncons K old.containers) (uncons K old.volume_claim_templates)

      abbrev decided : ScaledActionRunner K → Option (Parts K) → Option (Option (StatefulSet K))
      decided c o = o >>= λ p. some (
          if is_current K order p old c hash then none else some (updated_set K order p old c hash))

      updates-parts :
          (a b : ResourceList K)
          → updates (asking r a b config) ≡ decided (asking r a b config) (parts a b)
      unfolding get_scaled_set_updates
      updates-parts a b = refl

      unchanged_current :
          (current : Bool) (new : StatefulSet K)
          → Path
              (Option (Option (StatefulSet K)))
              (some (if current then none else some new))
              (some none)
          → current ≡ true
      unchanged_current true new e = refl
      unchanged_current false new e = ground arith

      panics_differs : (e : Path (Option (Option (StatefulSet K))) none (some none)) → ⊥
      panics_differs e = ground arith

      -- If nothing is updated, nothing is where the runners ask for the same cpu and memory,
      -- whatever other resources they ask for.
      pub get_scaled_set_updates-same_size :
          IsSameSize l l'
          → IsSameSize m m'
          → updates (asking r l m config) ≡ some none
          → updates (asking r l' m' config) ≡ some none
      get_scaled_set_updates-same_size h h' unchanged = elim (Option-cases (parts l m)) [
        | inl panics ↦ absurd (
            panics_differs (
              sym (ap (decided (asking r l m config)) panics)
              ∙ sym (updates-parts l m)
              ∙ unchanged))
        | inr (p, found) ↦
            let first : parts l m ≡ some (sized l m p) =
              parts-sized_at l m ∙ ap (map_parts (sized l m)) found in
            let second : parts l' m' ≡ some (sized l' m' p) =
              parts-sized_at l' m' ∙ ap (map_parts (sized l' m')) found in
            let current =
              unchanged_current (is_current K order (sized l m p) old (asking r l m config) hash)
                (updated_set K order (sized l m p) old (asking r l m config) hash)
                (sym (ap (decided (asking r l m config)) first)
                  ∙ sym (updates-parts l m)
                  ∙ unchanged) in
            updates-parts l' m'
            ∙ ap (decided (asking r l' m' config)) second
            ∙ rw (is_current-sized p r l m l' m' h h') (rw current refl)
      ]
