-- ===== src/Operator/StatefulSet/Again.antt =====
-- scaledactionrunner_controller.go: a stateful set that was updated needs no update.
use github_runner_autoscaler.Common.{
  ◌≡◌, refl, ap, ◌∙◌, Bool, true, false, not, Option, none, some, Bool-cases, inl, inr, List, [],
  ◌∷◌, Text, codes, text_eq, text_eq_refl, all, ==_iff, if◌then◌else◌,
}
use github_runner_autoscaler.Common.Dict.{lookup, insert, lookup-insert}
use github_runner_autoscaler.Operator.Resource.{
  Kubernetes, IsReflexive, StringMap, EnvVar, ScaledActionRunner, setup, or_else, or_empty,
  get_text, setup_runner, empty_runner, default_claim,
}
use github_runner_autoscaler.Operator.Generator.{
  host_path, secret, other, Container, ClaimTemplate, StatefulSet, annotation_secrets_hash,
  get_volumes, env_to_set, set_env,
}
use github_runner_autoscaler.Operator.Generator.Env.{IsRange, set_env-again}
use github_runner_autoscaler.Operator.Generator.Env.Names.{env_to_set-IsNamed}
use github_runner_autoscaler.Operator.StatefulSet.{
  option_same, list_same, map_same, mount_same, source_same, volume_same, quantity, resources_equal,
  sync, Parts, parts_of, sync_templates, sync_annotations, updated_set, is_current,
  get_scaled_set_updates,
}

-- A test that finds a value the same as itself.
abbrev pub IsReflexiveTest : {A : Type 0} → (A → A → Bool) → Type 0
IsReflexiveTest {A} same = (a : A) → same a a ≡ true

abbrev head : {A : Type 0} → List A → Option A
head [] = none
head (a ∷ _) = some a

module _ {A : Type 0} (same : A → A → Bool) (h : IsReflexiveTest same) where
  pub option_same_refl : IsReflexiveTest (option_same same)
  option_same_refl none = refl
  option_same_refl (some a) = h a

  pub list_same_refl : IsReflexiveTest (list_same same)
  list_same_refl [] = refl
  list_same_refl (a ∷ l) = rw (h a) (list_same_refl l)

  -- What was assigned where it differed does not differ.
  pub sync-again : (K : Kubernetes) (old new : A) → same (sync K same old new) new ≡ true
  sync-again K old new = elim (Bool-cases (same old new)) [
    | inl equal ↦ rw equal equal
    | inr differs ↦ rw differs (h new)
  ]

map_within_refl :
    (m l : List (Text × Text))
    → all (λ (k, _). option_same text_eq (lookup k m) (lookup k m)) l ≡ true
map_within_refl m [] = refl
map_within_refl m ((k, v) ∷ l) =
    rw (option_same_refl text_eq text_eq_refl (lookup k m)) (map_within_refl m l)

pub map_same_refl : IsReflexiveTest map_same
map_same_refl m = rw (map_within_refl m m) refl

read_only_refl : (b : Bool) → (if b then b else not b) ≡ true
read_only_refl true = refl
read_only_refl false = refl

pub mount_same_refl : IsReflexiveTest mount_same
mount_same_refl m =
    rw (text_eq_refl m.name) (rw (read_only_refl m.read_only) (text_eq_refl m.mount_path))

pub get_text_found :
    (k : Text) (m : StringMap) (v : Text) → lookup k (or_empty m) ≡ some v → get_text k m ≡ v
get_text_found k m v found = rw (found, get_text) refl

pub mounts_refl : IsReflexiveTest (option_same (list_same mount_same))
mounts_refl = option_same_refl (list_same mount_same) (list_same_refl mount_same mount_same_refl)

pub annotation-again :
    (annotations : StringMap) (K : Kubernetes) (hash : Text)
    → text_eq (get_text annotation_secrets_hash (sync_annotations K annotations hash)) hash ≡ true
annotation-again annotations K hash =
    elim (Bool-cases (text_eq (get_text annotation_secrets_hash annotations) hash)) [
      | inl equal ↦ rw equal equal
      | inr differs ↦ rw differs (
          rw
            (get_text_found annotation_secrets_hash
              (some (insert annotation_secrets_hash hash (or_empty annotations))) hash
              (lookup-insert annotation_secrets_hash annotation_secrets_hash hash
                (or_empty annotations)))
            (text_eq_refl hash))
    ]

module _ (K : Kubernetes) (R : IsReflexive K) where
  pub source_same_refl : IsReflexiveTest (source_same K)
  source_same_refl (host_path p t) = rw (text_eq_refl p) (text_eq_refl t)
  source_same_refl (secret s n) = rw (text_eq_refl s) ((==_iff n n).1 refl)
  source_same_refl (other s) = R.volume_refl s

  pub volume_same_refl : IsReflexiveTest (volume_same K)
  volume_same_refl v = rw (text_eq_refl v.name) (source_same_refl v.source)

  pub volumes_refl : IsReflexiveTest (option_same (list_same (volume_same K)))
  volumes_refl =
      option_same_refl (list_same (volume_same K)) (list_same_refl (volume_same K) volume_same_refl)

  pub tolerations_refl : IsReflexiveTest (option_same (list_same K.toleration_same))
  tolerations_refl =
      option_same_refl (list_same K.toleration_same)
        (list_same_refl K.toleration_same R.toleration_refl)

  pub resources_equal_refl : IsReflexiveTest (resources_equal K)
  resources_equal_refl l = rw (R.equal_refl (quantity K (codes "cpu") l)) (R.equal_refl _)

  pub templates-again :
      (claim : K.Claim) (t : ClaimTemplate K) (ts : List (ClaimTemplate K))
      → (t' : ClaimTemplate K) × (ts' : List (ClaimTemplate K)) × ((sync_templates K claim t ts).0
          ≡ t' ∷ ts')
        × ((sync_templates K claim t' ts').1 ≡ false)
  templates-again claim t ts = elim (Bool-cases (K.claim_same t.spec claim)) [
    | inl equal ↦ (t, ts, rw equal refl, rw equal refl)
    | inr differs ↦
        let filled = K.set_volume_mode (codes "Filesystem") t.spec in
        elim (Bool-cases (K.claim_same filled claim)) [
          | inl equal ↦ (record t { spec = filled }, ts, rw differs (rw equal refl), rw equal refl)
          | inr replaced ↦ (
            record t { spec = claim },
            [],
            rw differs (rw replaced refl),
            rw (R.claim_refl claim) refl,
          )
        ]
  ]

  module _ (order : List (Text × EnvVar K) → List (Text × EnvVar K)) (range : IsRange order)
      (config : ScaledActionRunner K) (hash : Text) where
    -- The parts of the updated set, with its first claim template and the others.
    abbrev next : Parts K → StatefulSet K → ClaimTemplate K → List (ClaimTemplate K) → Parts K
    next p new t ts = record p {
      container = or_else (head new.containers) p.container;
      template = t;
      templates = ts;
    }

    env_again :
        (p : Parts K)
        → (set_env K order
            (env_to_set K config p.runner)
            (set_env K order (env_to_set K config p.runner) p.container.env).0).1
          ≡ false
    env_again p =
        ap (λ r. r.1)
          (set_env-again K R order (env_to_set K config p.runner) p.container.env range
            (env_to_set-IsNamed K config p.runner))

    pub is_current-again :
        (p : Parts K) (old : StatefulSet K) (t : ClaimTemplate K) (ts : List (ClaimTemplate K))
        → (sync_templates K p.claim t ts).1 ≡ false
        → let new = updated_set K order p old config hash in
          is_current K order (next p new t ts) new config hash ≡ true
    unfolding updated_set is_current
    is_current-again p old t ts kept =
        let (volumes, mounts) = get_volumes K config p.mount in
        rw (sync-again text_eq text_eq_refl K old.name config.name) (
          rw (sync-again text_eq text_eq_refl K old.namespace config.namespace) (
            rw (annotation-again old.annotations K hash) (
              rw (sync-again text_eq text_eq_refl K p.container.image p.runner.image) (
                rw kept (
                  rw (env_again p) (
                    rw
                      (sync-again (option_same (list_same (volume_same K))) volumes_refl K
                        old.volumes (some volumes))
                      (rw
                        (sync-again (option_same (list_same mount_same)) mounts_refl K
                          p.container.volume_mounts (some mounts))
                        (rw (resources_equal_refl p.requests) (
                          rw (resources_equal_refl p.limits) (
                            rw (option_same_refl map_same map_same_refl p.runner.annotations) (
                              rw (option_same_refl map_same map_same_refl p.runner.node_selector) (
                                rw (tolerations_refl p.runner.tolerations) (
                                  sync-again text_eq text_eq_refl K old.service_account_name
                                    p.runner.service_account_name)))))))))))))

    -- The parts that are read once the defaults are given.
    abbrev resolved :
        Container K → List (Container K) → ClaimTemplate K → List (ClaimTemplate K) → Parts K
    resolved k ks t ts =
        let runner = setup_runner K (or_else config.spec.runner (empty_runner K)) in
        record {
          runner = runner;
          claim = or_else runner.work_volume_claim_template (default_claim K);
          requests = or_else runner.requests [];
          limits = or_else runner.limits [];
          mount = or_else runner.mount_docker_sock true;
          container = k;
          containers = ks;
          template = t;
          templates = ts;
        }

    parts_of-resolved :
        (old : StatefulSet K) (k : Container K) (ks : List (Container K))
        → (t : ClaimTemplate K) (ts : List (ClaimTemplate K)) → old.containers ≡ k ∷ ks
        → old.volume_claim_templates ≡ t ∷ ts
        → parts_of K old (setup K config) ≡ some (resolved k ks t ts)
    unfolding setup
    parts_of-resolved old k ks t ts e1 e2 = rw (e1, parts_of) (rw e2 refl)

  module _ (order : List (Text × EnvVar K) → List (Text × EnvVar K)) (range : IsRange order)
      (config : ScaledActionRunner K) (hash : Text) where
    abbrev updates : StatefulSet K → Option (Option (StatefulSet K))
    updates old = get_scaled_set_updates K order old (setup K config) hash

    module _ (old : StatefulSet K) (k : Container K) (ks : List (Container K)) (t : ClaimTemplate K)
        (ts : List (ClaimTemplate K)) (e1 : old.containers ≡ k ∷ ks)
        (e2 : old.volume_claim_templates ≡ t ∷ ts) where
      abbrev answer : Bool → StatefulSet K → Option (StatefulSet K)
      answer current new = if current then none else some new

      updates-resolved :
          let p = resolved order range config hash k ks t ts in
          let c = setup K config in
          updates old
          ≡ some (answer (is_current K order p old c hash) (updated_set K order p old c hash))
      unfolding get_scaled_set_updates
      updates-resolved = rw (parts_of-resolved order range config hash old k ks t ts e1 e2) refl

    -- An updated set is found current, whichever of its fields were changed.
    updates-new :
        (old : StatefulSet K) (k : Container K) (ks : List (Container K)) (t : ClaimTemplate K)
        → (ts : List (ClaimTemplate K))
        → let p = resolved order range config hash k ks t ts in
          updates (updated_set K order p old (setup K config) hash) ≡ some none
    unfolding updated_set
    updates-new old k ks t ts =
        let p = resolved order range config hash k ks t ts in
        let new = updated_set K order p old (setup K config) hash in
        let (t', ts', e, kept) = templates-again p.claim t ts in
        updates-resolved new (or_else (head new.containers) k) ks t' ts' refl e
        ∙ rw (is_current-again order range (setup K config) hash p old t' ts' kept) refl

    -- Once the defaults are given, the update of a stateful set that has a container and a claim
    -- template does not panic, and after it a second one finds nothing to do. A range over a map
    -- visits each entry once, in some order, and the comparisons of the library find a value the
    -- same as itself.
    pub get_scaled_set_updates-again :
        (old : StatefulSet K) (k : Container K) (ks : List (Container K)) (t : ClaimTemplate K)
        → (ts : List (ClaimTemplate K)) → old.containers ≡ k ∷ ks
        → old.volume_claim_templates ≡ t ∷ ts
        → (r : Option (StatefulSet K)) × (updates old ≡ some r)
          × (updates (or_else r old) ≡ some none)
    get_scaled_set_updates-again old k ks t ts e1 e2 =
        let p = resolved order range config hash k ks t ts in
        let first = updates-resolved old k ks t ts e1 e2 in
        elim (Bool-cases (is_current K order p old (setup K config) hash)) [
          | inl current ↦ (none, first ∙ rw current refl, first ∙ rw current refl)
          | inr stale ↦ (
            some (updated_set K order p old (setup K config) hash),
            first ∙ rw stale refl,
            updates-new old k ks t ts,
          )
        ]
