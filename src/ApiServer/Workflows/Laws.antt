-- ===== src/ApiServer/Workflows/Laws.antt =====
-- workflows.go: what a copying leaves in the store.
use github_runner_autoscaler.Common.{
  ℕ, suc, ◌≡◌, ◌⊎◌, inl, inr, ◌∙◌, refl, ap, sym, Bool, true, false, Result, Result-cases, Option,
  none, some, List, [], ◌∷◌, Text, text_eq, ok, err, if◌then◌else◌, arith, All,
}
use github_runner_autoscaler.ApiServer.Scaling.{Floats}
use github_runner_autoscaler.ApiServer.Workflows.{
  Crd, workflow_from, Kubernetes, GithubWorkflowConfig, CacheStore, client_namespaces, list_runners,
  to_cache, update_all, copy_all_workflows, get_workflow,
}

-- The value that a list of configurations has under a name: the last one counts.
abbrev pub named :
    {F : Floats}
    → Text
    → List (GithubWorkflowConfig F)
    → Option (GithubWorkflowConfig F)
    → Option (GithubWorkflowConfig F)
named key [] found = found
named key (wf ∷ wfs) found = named key wfs (if text_eq wf.name key then some wf else found)

-- What client-go documents of its store, with `getKey` as its key function: one entry by name.
pub record StoreLaws (F : Floats) {C : Type 0} (store : CacheStore C (GithubWorkflowConfig F))
    : Type 0 where
  pub get_error : (key : Text) (c : C) → (store.get_by_key key c).error ≡ none
  pub get-replace :
      (key : Text) (wfs : List (GithubWorkflowConfig F)) (c : C)
      → (store.get_by_key key (store.replace wfs c)).item ≡ named key wfs none
  pub get-update :
      (key : Text) (wf : GithubWorkflowConfig F) (c : C)
      → (store.get_by_key key (store.update wf c)).item
        ≡ (if text_eq wf.name key then some wf else (store.get_by_key key c).item)

module _ (F : Floats) {C : Type 0} (store : CacheStore C (GithubWorkflowConfig F))
    (laws : StoreLaws F store) where
  get_workflow_lem :
      (key : Text) (c : C) → get_workflow F store key c ≡ ok (store.get_by_key key c).item
  unfolding get_workflow
  get_workflow_lem key c = ground (arith, laws.get_error key c)

  get-update_all :
      (key : Text) (wfs : List (GithubWorkflowConfig F)) (c : C)
      → (store.get_by_key key (update_all F store wfs c)).item
        ≡ named key wfs (store.get_by_key key c).item
  unfolding update_all
  get-update_all key [] c = refl
  get-update_all key (wf ∷ wfs) c =
      get-update_all key wfs (store.update wf c) ∙ ap (named key wfs) (laws.get-update key wf c)

  module _ (k : Kubernetes) (random : ℕ → ℕ) (pat_namespace : Text) where
    abbrev pub load : ℕ → Crd → Result Text (GithubWorkflowConfig F)
    load i r = workflow_from F k (random i) pat_namespace r

    abbrev pub cons_ok :
        Result Text (GithubWorkflowConfig F)
        → List (GithubWorkflowConfig F)
        → List (GithubWorkflowConfig F)
    cons_ok (ok wf) wfs = wf ∷ wfs
    cons_ok (err e) wfs = wfs

    -- The configurations of the runners, from the i-th on, that load.
    abbrev pub loaded : ℕ → List Crd → List (GithubWorkflowConfig F)
    loaded i [] = []
    loaded i (r ∷ runners) = cons_ok (load i r) (loaded (suc i) runners)

    -- Every runner loads, and some runner does not.
    abbrev pub AllLoad : ℕ → List Crd → Type 0
    AllLoad i [] = Unit
    AllLoad i (r ∷ runners) =
        ((wf : GithubWorkflowConfig F) × (load i r ≡ ok wf)) × AllLoad (suc i) runners

    abbrev pub SomeFails : ℕ → List Crd → Type 0
    SomeFails i [] = ⊥
    SomeFails i (r ∷ runners) = ((e : Text) × (load i r ≡ err e)) ⊎ SomeFails (suc i) runners

    abbrev Cached : Type 0
    Cached = List (GithubWorkflowConfig F) × Bool

    cached_at : ℕ → List Crd → Cached
    cached_at i runners = to_cache F k random pat_namespace i runners

    to_cache-ok :
        (i : ℕ) (r : Crd) (runners : List Crd) (wf : GithubWorkflowConfig F)
        → load i r ≡ ok wf
        → let rest = cached_at (suc i) runners in cached_at i (r ∷ runners) ≡ (wf ∷ rest.0, rest.1)
    unfolding to_cache cached_at
    to_cache-ok i r runners wf e = rw (e, to_cache) refl

    to_cache-err :
        (i : ℕ) (r : Crd) (runners : List Crd) (m : Text)
        → load i r ≡ err m
        → cached_at i (r ∷ runners) ≡ ((cached_at (suc i) runners).0, false)
    unfolding to_cache cached_at
    to_cache-err i r runners m e = rw (e, to_cache) refl

    loaded-cons :
        (i : ℕ) (r : Crd) (runners : List Crd) (x : Result Text (GithubWorkflowConfig F))
        → load i r ≡ x
        → cons_ok x (loaded (suc i) runners) ≡ loaded i (r ∷ runners)
    loaded-cons i r runners x e = ap (λ y. cons_ok y (loaded (suc i) runners)) (sym e)

    -- What is cached are the configurations that load.
    cached-loaded : (i : ℕ) (runners : List Crd) → (cached_at i runners).0 ≡ loaded i runners
    unfolding to_cache cached_at
    cached-loaded i [] = refl
    cached-loaded i (r ∷ runners) = elim (Result-cases (load i r)) [
      | inl (wf, e) ↦
          ap (λ x. x.0) (to_cache-ok i r runners wf e)
          ∙ ap (λ l. wf ∷ l) (cached-loaded (suc i) runners)
          ∙ loaded-cons i r runners (ok wf) e
      | inr (m, e) ↦
          ap (λ x. x.0) (to_cache-err i r runners m e)
          ∙ cached-loaded (suc i) runners
          ∙ loaded-cons i r runners (err m) e
    ]

    -- The old ones are purged exactly if all load.
    cached-purge :
        (i : ℕ) (runners : List Crd)
        → (((cached_at i runners).1 ≡ true) × AllLoad i runners)
          ⊎ (((cached_at i runners).1 ≡ false) × SomeFails i runners)
    unfolding to_cache cached_at
    cached-purge i [] = inl (refl, tt)
    cached-purge i (r ∷ runners) = elim (Result-cases (load i r)) [
      | inl (wf, e) ↦
          let step = ap (λ x. x.1) (to_cache-ok i r runners wf e) in
          elim (cached-purge (suc i) runners) [
            | inl (purge, all_load) ↦ inl (step ∙ purge, ((wf, e), all_load))
            | inr (keep, fails) ↦ inr (step ∙ keep, inr fails)
          ]
      | inr (m, e) ↦ inr (ap (λ x. x.1) (to_cache-err i r runners m e), inl (m, e))
    ]

    pair-eq :
        (x : Cached) (l : List (GithubWorkflowConfig F)) (b : Bool) → x.0 ≡ l → x.1 ≡ b → x ≡ (l, b)
    pair-eq (_, _) l b e f = rw (e, f) refl

    module _ (namespaces : List Text) (key : Text) (c : C) where
      abbrev pub listed : List Crd
      listed = list_runners k (client_namespaces namespaces)

      abbrev pub found : Result Text (Option (GithubWorkflowConfig F))
      found =
          get_workflow F store key (copy_all_workflows F store k random pat_namespace namespaces c)

      found-cached :
          (cached : List (GithubWorkflowConfig F)) (purge_old : Bool)
          → cached_at 0 listed ≡ (cached, purge_old)
          → found
            ≡ ok (named key cached (if purge_old then none else (store.get_by_key key c).item))
      unfolding copy_all_workflows cached_at
      found-cached cached purge_old e =
          get_workflow_lem key (copy_all_workflows F store k random pat_namespace namespaces c)
          ∙ ap ok (ground (arith, e, laws.get-replace key cached c, get-update_all key cached c))

      -- After a copying, either every listed runner loads, and a runner is found under its name as
      -- the last one of that name, or not at all; or some listed runner does not load, and a
      -- runner is found as the last one of that name that loaded, or else as it was before. The
      -- store keeps one entry for each name.
      pub get_workflow-copy_all :
          (AllLoad 0 listed × (found ≡ ok (named key (loaded 0 listed) none)))
          ⊎ (SomeFails 0 listed
              × (found ≡ ok (named key (loaded 0 listed) (store.get_by_key key c).item)))
      get_workflow-copy_all =
          let cached = cached-loaded 0 listed in
          elim (cached-purge 0 listed) [
            | inl (purge, all_load) ↦ inl (
              all_load,
              found-cached (loaded 0 listed) true (pair-eq _ (loaded 0 listed) true cached purge),
            )
            | inr (keep, fails) ↦ inr (
              fails,
              found-cached (loaded 0 listed) false (pair-eq _ (loaded 0 listed) false cached keep),
            )
          ]

    list_runners-failed :
        (namespaces : List Text)
        → All (λ ns. (e : Text) × (k.runners ns ≡ err e)) namespaces
        → list_runners k namespaces ≡ []
    unfolding list_runners
    list_runners-failed [] h = refl
    list_runners-failed (ns ∷ more) ((e, h), hs) =
        rw (h, list_runners) (list_runners-failed more hs)

    -- If the runners of no namespace can be listed, nothing is found after a copying: the old
    -- runners are purged.
    pub get_workflow-list_failed :
        (namespaces : List Text) (key : Text) (c : C)
        → All (λ ns. (e : Text) × (k.runners ns ≡ err e)) (client_namespaces namespaces)
        → get_workflow F store key (copy_all_workflows F store k random pat_namespace namespaces c)
          ≡ ok none
    unfolding to_cache cached_at
    get_workflow-list_failed namespaces key c failed =
        found-cached namespaces key c [] true
          (rw (list_runners-failed (client_namespaces namespaces) failed) refl)
