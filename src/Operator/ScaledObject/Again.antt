-- ===== src/Operator/ScaledObject/Again.antt =====
-- scaledactionrunner_controller.go: a scaled object that was updated needs no update.
use github_runner_autoscaler.Common.{
  ◌≡◌, refl, ap, sym, ◌∙◌, Bool, true, false, Option, none, some, Option-cases, Bool-cases, inl,
  inr, List, ◌∷◌, Text, codes, text_eq, text_eq_refl,
}
use github_runner_autoscaler.Common.Int.{ℤ, eqb_ℤ, eqb_ℤ_refl}
use github_runner_autoscaler.Common.Dict.{insert, lookup-insert}
use github_runner_autoscaler.Operator.Resource.{
  Kubernetes, IsReflexive, StringMap, Scaling, ScaledActionRunner, get_text,
}
use github_runner_autoscaler.Operator.StatefulSet.{list_same, map_same, sync}
use github_runner_autoscaler.Operator.StatefulSet.Again.{
  IsReflexiveTest, option_same_refl, list_same_refl, map_same_refl, sync-again, get_text_found,
}
use github_runner_autoscaler.Operator.ScaledObject.{
  ScaleTarget, Trigger, ScaledObjectSpec, ScaledObject, target_same, reference_same, trigger_same,
  sync_count, set_url, with_behavior, with_scaling, update_scaled_object_spec, empty_spec,
  generate_scaled_object, spec_same, prepared, complete, addressed, or_generated, assigned,
  assign_scaled_object_props,
}

target_same_refl : IsReflexiveTest target_same
target_same_refl t =
    rw (text_eq_refl t.kind) (rw (text_eq_refl t.name) (text_eq_refl t.api_version))

reference_same_refl : IsReflexiveTest reference_same
reference_same_refl (n, k) = rw (text_eq_refl n) (text_eq_refl k)

trigger_same_refl : IsReflexiveTest trigger_same
trigger_same_refl t = rw (text_eq_refl t.type_name) (
    rw (option_same_refl reference_same reference_same_refl t.authentication)
      (option_same_refl map_same map_same_refl t.metadata))

sync_count-again : (o : Option ℤ) (n : ℤ) → sync_count (sync_count o n) n ≡ sync_count o n
sync_count-again none n = rw (eqb_ℤ_refl n) refl
sync_count-again (some m) n = elim (Bool-cases (eqb_ℤ m n)) [
  | inl equal ↦ rw equal (rw equal refl)
  | inr differs ↦ rw differs (rw (eqb_ℤ_refl n) refl)
]

set_url-again :
    (url : Text) (entries : List (Text × Text))
    → (m : StringMap) × (set_url url (some entries) ≡ some m) × (set_url url m ≡ some m)
set_url-again url entries =
    elim (Bool-cases (text_eq url (get_text (codes "url") (some entries)))) [
      | inl equal ↦ (some entries, rw equal refl, rw equal refl)
      | inr differs ↦
          let m : StringMap = some (insert (codes "url") url entries) in
          let read =
            get_text_found (codes "url") m url
              (lookup-insert (codes "url") (codes "url") url entries) in
          (m, rw differs refl, rw read (rw (text_eq_refl url) refl))
    ]

module _ (K : Kubernetes) where
  sync_name-again :
      (old new : Text) → sync K text_eq (sync K text_eq old new) new ≡ sync K text_eq old new
  sync_name-again old new = rw (sync-again text_eq text_eq_refl K old new) refl

  with_behavior-again :
      (b : Option K.Behavior) (a : Option K.Advanced)
      → with_behavior K b (with_behavior K b a) ≡ with_behavior K b a
  with_behavior-again none a = refl
  with_behavior-again (some b) a = refl

  -- What the scaling and the limits leave alone.
  abbrev retargeted :
      Option ScaleTarget → Option (List Trigger) → ScaledObjectSpec K → ScaledObjectSpec K
  retargeted t g spec = record spec { scale_target_ref = t; triggers = g }

  abbrev prepared_with : Option (Scaling K) → ℤ → ℤ → ScaledObjectSpec K → ScaledObjectSpec K
  prepared_with s a b spec =
      let scaled = with_scaling K s spec in
      record scaled {
        min_replica_count = sync_count scaled.min_replica_count a;
        max_replica_count = sync_count scaled.max_replica_count b;
      }

  prepared-again :
      (s : Option (Scaling K)) (a b : ℤ) (spec : ScaledObjectSpec K)
      → prepared_with s a b (prepared_with s a b spec) ≡ prepared_with s a b spec
  prepared-again none a b spec =
      rw (sync_count-again spec.min_replica_count a)
        (rw (sync_count-again spec.max_replica_count b) refl)
  prepared-again (some s) a b spec = rw (sync_count-again spec.min_replica_count a) (
      rw (sync_count-again spec.max_replica_count b)
        (rw (with_behavior-again s.behavior spec.advanced) refl))

  prepared-retargeted :
      (s : Option (Scaling K)) (a b : ℤ) (t : Option ScaleTarget) (g : Option (List Trigger))
      → (spec : ScaledObjectSpec K)
      → prepared_with s a b (retargeted t g spec) ≡ retargeted t g (prepared_with s a b spec)
  prepared-retargeted none a b t g spec = refl
  prepared-retargeted (some s) a b t g spec = refl

  prepared-generated :
      (s : Option (Scaling K)) (a b : ℤ) (spec : ScaledObjectSpec K)
      → let made =
          with_scaling K s
            (record spec { min_replica_count = some a; max_replica_count = some b }) in
        prepared_with s a b made ≡ made
  prepared-generated none a b spec = rw (eqb_ℤ_refl a) (rw (eqb_ℤ_refl b) refl)
  prepared-generated (some s) a b spec =
      rw (eqb_ℤ_refl a) (rw (eqb_ℤ_refl b) (rw (with_behavior-again s.behavior spec.advanced) refl))

  complete-scaled :
      (s : Option (Scaling K)) (spec : ScaledObjectSpec K)
      → complete K (with_scaling K s spec) ≡ complete K spec
  complete-scaled none spec = refl
  complete-scaled (some s) spec = refl

  -- Whatever the first trigger there is, its map is not nil.
  abbrev pub HasMetadata : ScaledObjectSpec K → Type 0
  HasMetadata spec =
      (t : ScaleTarget) (g : Trigger) (gs : List Trigger)
      → complete K spec ≡ some (t, g, gs)
      → (m : List (Text × Text)) × (g.metadata ≡ some m)

  module _ (c : ScaledActionRunner K) (url cluster_trigger : Text) where
    abbrev IsPrepared : ScaledObjectSpec K → Type 0
    IsPrepared q =
        (prepared K c q ≡ q)
        × (t : ScaleTarget) × (g : Trigger) × (gs : List Trigger) × (complete K q ≡ some (t, g, gs))
        × (m : List (Text × Text)) × (g.metadata ≡ some m)

    abbrev unscaled : ScaledObjectSpec K
    unscaled =
        update_scaled_object_spec K (record c { spec = record c.spec { scaling = none } }) url
          (empty_spec K) cluster_trigger

    generated-IsPrepared : IsPrepared (generate_scaled_object K c url cluster_trigger).spec
    unfolding generate_scaled_object update_scaled_object_spec
    generated-IsPrepared = (
      prepared-generated c.spec.scaling c.spec.min_runners c.spec.max_runners unscaled,
      _,
      _,
      _,
      complete-scaled c.spec.scaling unscaled,
      _,
      refl,
    )

    or_generated-IsPrepared :
        (spec : ScaledObjectSpec K)
        → HasMetadata spec
        → IsPrepared (or_generated K c url cluster_trigger (prepared K c spec))
    or_generated-IsPrepared spec h = elim (Option-cases (complete K (prepared K c spec))) [
      | inl missing ↦ rw (missing, or_generated) generated-IsPrepared
      | inr ((t, g, gs), found) ↦
          let (m, e) = h t g gs (sym (complete-scaled c.spec.scaling spec) ∙ found) in
          rw (found, or_generated)
            (
              prepared-again c.spec.scaling c.spec.min_runners c.spec.max_runners spec,
              t,
              g,
              gs,
              found,
              m,
              e,
            )
    ]

    -- The specification that is assigned, given the parts that it has before.
    addressed-again :
        (q : ScaledObjectSpec K)
        → IsPrepared q
        → (s : ScaledObjectSpec K) × (addressed K c url q ≡ some s)
          × (addressed K c url (or_generated K c url cluster_trigger (prepared K c s)) ≡ some s)
    addressed-again q (fixed, t, g, gs, found, m, metadata) =
        let (m', e1, e2) = set_url-again url m in
        let t' : Option ScaleTarget = some (record t { name = sync K text_eq t.name c.name }) in
        let g' : Option (List Trigger) = some (record g { metadata = m' } ∷ gs) in
        let s = retargeted t' g' q in
        let same : prepared K c s ≡ s =
          prepared-retargeted c.spec.scaling c.spec.min_runners c.spec.max_runners t' g' q
          ∙ ap (retargeted t' g') fixed in
        (
          s,
          rw found (rw metadata (rw e1 refl)),
          rw same (rw (sync_name-again t.name c.name) (rw e2 refl)),
        )

    spec_same_refl : IsReflexive K → IsReflexiveTest (spec_same K)
    spec_same_refl R s = rw (option_same_refl target_same target_same_refl s.scale_target_ref) (
        rw (option_same_refl eqb_ℤ eqb_ℤ_refl s.polling_interval) (
          rw (option_same_refl eqb_ℤ eqb_ℤ_refl s.cooldown_period) (
            rw (option_same_refl eqb_ℤ eqb_ℤ_refl s.min_replica_count) (
              rw (option_same_refl eqb_ℤ eqb_ℤ_refl s.max_replica_count) (
                rw (option_same_refl K.advanced_same R.advanced_refl s.advanced) (
                  option_same_refl (list_same trigger_same)
                    (list_same_refl trigger_same trigger_same_refl) s.triggers))))))

    abbrev assign : ScaledObject K → Option (ScaledObject K × Bool)
    assign o = assign_scaled_object_props K o c url cluster_trigger

    -- An object with the names and the specification that the runners ask for is left as it is.
    abbrev renamed : ScaledObject K → ScaledObjectSpec K → ScaledObject K
    renamed o spec = record o {
      name = sync K text_eq o.name c.name;
      namespace = sync K text_eq o.namespace c.namespace;
      spec = spec;
    }

    assigned-renamed :
        (o : ScaledObject K) (kept s : ScaledObjectSpec K)
        → spec_same K s kept ≡ true
        → assigned K c (renamed o kept) s ≡ (renamed o kept, false)
    assigned-renamed o kept s same = rw same (
        rw (sync-again text_eq text_eq_refl K o.name c.name)
          (rw (sync-again text_eq text_eq_refl K o.namespace c.namespace) refl))

    assign-steps :
        (o : ScaledObject K) (s : ScaledObjectSpec K)
        → addressed K c url (or_generated K c url cluster_trigger (prepared K c o.spec)) ≡ some s
        → assign o ≡ some (assigned K c o s)
    unfolding assign_scaled_object_props
    assign-steps o s e = rw e refl

    -- Unless the map of the first trigger is nil, the assignment does not panic, and a second one
    -- changes nothing. The comparisons of the library find a value the same as itself.
    pub assign_scaled_object_props-again :
        (R : IsReflexive K) (found : ScaledObject K)
        → HasMetadata found.spec
        → (new : ScaledObject K) × (updated : Bool) × (assign found ≡ some (new, updated))
          × (assign new ≡ some (new, false))
    assign_scaled_object_props-again R found h =
        let (s, e1, e2) = addressed-again _ (or_generated-IsPrepared found.spec h) in
        let first = assign-steps found s e1 in
        elim (Bool-cases (spec_same K s found.spec)) [
          | inl same ↦ (
            renamed found found.spec,
            (assigned K c found s).1,
            first ∙ rw same refl,
            assign-steps (renamed found found.spec) s e1
                ∙ ap some (assigned-renamed found found.spec s same),
          )
          | inr differs ↦ (
            renamed found s,
            (assigned K c found s).1,
            first ∙ rw differs refl,
            assign-steps (renamed found s) s e2
                ∙ ap some (assigned-renamed found s s (spec_same_refl R s)),
          )
        ]
