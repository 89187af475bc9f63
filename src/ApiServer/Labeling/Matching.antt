-- ===== src/ApiServer/Labeling/Matching.antt =====
-- labeling.go: the labels that a run has for the labels of its runners, and what is matched.
use github_runner_autoscaler.Common.{
  ◌≡◌, ◌∙◌, sym, append-nil, append_assoc, refl, Bool, true, false, ◌&&◌, ◌||◌, Option, none, some,
  List, [], ◌∷◌, ◌++◌, map, join, keep, any-append, Text, text_eq, text_eq_iff, All, any, arith,
  if◌then◌else◌, Bool-cases, Option-cases, inl, inr,
}
use github_runner_autoscaler.Common.Dict.{lookup, insert, lookup-insert}
use github_runner_autoscaler.Common.Int.{ℤ}
use github_runner_autoscaler.AddRunner.Resources.{clean_unit, selector_key}
use github_runner_autoscaler.ApiServer.World.{WorkflowRun}
use github_runner_autoscaler.ApiServer.Scaling.{Floats}
use github_runner_autoscaler.ApiServer.State.{WorkflowInfo, WorkflowInfos}
use github_runner_autoscaler.ApiServer.GithubClient.{contains_str, sort_strings}
use github_runner_autoscaler.ApiServer.GithubClient.Labels.{contains-sort, contains-append}
use github_runner_autoscaler.ApiServer.Workflows.{GithubWorkflowConfig}
use github_runner_autoscaler.ApiServer.Labeling.{
  Labels, Matched, labels_of, find_info, base_labels, info_labels, add_runs_on, runs_on_key,
  values_at, add_value, add_values, sanitize_label_value, dots_replaced, wf_name_label,
  wf_all_runs_on, filter_from, filter_by_selector,
}

lookup-add_runs_on :
    (l : Text) (rls : List Text) (lbls : Labels)
    → lookup (runs_on_key l) (add_runs_on rls lbls)
      ≡ (if contains_str rls l then some l else lookup (runs_on_key l) lbls)
unfolding add_runs_on contains_str runs_on_key
lookup-add_runs_on l [] lbls = refl
lookup-add_runs_on l (rl ∷ rls) lbls =
    lookup-add_runs_on l rls (insert (runs_on_key rl) rl lbls)
    ∙ ground (arith, lookup-insert (runs_on_key rl) (runs_on_key l) rl lbls, text_eq_iff rl l)

lookup-info_labels :
    (l : Text) (info : WorkflowInfo) (lbls : Labels)
    → lookup (runs_on_key l) (info_labels info lbls)
      ≡ (if contains_str info.labels l then some l else lookup (runs_on_key l) lbls)
unfolding info_labels runs_on_key
lookup-info_labels l info lbls =
    let runs_on : List Text = sort_strings info.labels in
    let named : Labels = insert wf_name_label (sanitize_label_value info.name) lbls in
    lookup-insert wf_all_runs_on (runs_on_key l) (join (b'.' ∷ []) (map dots_replaced runs_on))
      (add_runs_on runs_on named)
    ∙ lookup-add_runs_on l runs_on named
    ∙ ground (
      arith,
      contains-sort l info.labels,
      lookup-insert wf_name_label (runs_on_key l) (sanitize_label_value info.name) lbls,
    )

module _ (F : Floats) (wf : GithubWorkflowConfig F) where
  lookup-base_labels : (id : ℤ) (l : Text) → lookup (runs_on_key l) (base_labels F id wf) ≡ none
  unfolding base_labels runs_on_key lookup insert
  lookup-base_labels id l = refl

  -- A run of a known workflow has the label of exactly the runner labels of the workflow.
  pub lookup-labels_of :
      (infos : WorkflowInfos) (r : WorkflowRun) (id : ℤ) (info : WorkflowInfo) (l : Text)
      → r.workflow_id ≡ some id
      → find_info id infos ≡ some info
      → (lbls : Labels) × (labels_of F r wf infos ≡ some lbls)
        × (lookup (runs_on_key l) lbls ≡ (if contains_str info.labels l then some l else none))
  unfolding labels_of
  lookup-labels_of infos r id info l has_id known = (
    info_labels info (base_labels F id wf),
    ground arith,
    lookup-info_labels l info (base_labels F id wf) ∙ rw (lookup-base_labels id l) refl,
  )

  -- For a label of letters, digits and dashes, a run of a known workflow has a value, the label
  -- itself, under the key that the command writes into its selector exactly if the label is among
  -- those that the workflow runs on.
  pub lookup-selector_key :
      (infos : WorkflowInfos) (r : WorkflowRun) (id : ℤ) (info : WorkflowInfo) (l : Text)
      → map clean_unit l ≡ l
      → r.workflow_id ≡ some id
      → find_info id infos ≡ some info
      → (lbls : Labels) × (labels_of F r wf infos ≡ some lbls)
        × (lookup (selector_key l) lbls ≡ (if contains_str info.labels l then some l else none))
  unfolding selector_key runs_on_key
  lookup-selector_key infos r id info l clean has_id known =
      let (lbls, e, found) = lookup-labels_of infos r id info l has_id known in
      (lbls, e, rw clean found)

-- The labels hold the value `v` under `l`.
abbrev pub holds : Text → Text → Labels → Bool
holds l v lbls = any (λ p. text_eq p.0 l && text_eq p.1 v) lbls

contains-add_value :
    (l v n u : Text) (m : Matched)
    → contains_str (values_at n (add_value l v m)) u
      ≡ (contains_str (values_at n m) u || (text_eq l n && text_eq v u))
unfolding add_value contains_str
contains-add_value l v n u m = elim (Bool-cases (contains_str (values_at l m) v)) [
  | inl old ↦ rw old (ground (arith, text_eq_iff l n, text_eq_iff v u))
  | inr new ↦ rw new (
      ground (
        arith,
        lookup-insert l n (values_at l m ++ (v ∷ [])) m,
        contains-append u (values_at l m) (v ∷ []),
        text_eq_iff l n,
      ))
]

contains-add_values :
    (n u : Text) (lbls : Labels) (m : Matched)
    → contains_str (values_at n (add_values lbls m)) u
      ≡ (contains_str (values_at n m) u || holds n u lbls)
unfolding add_values
contains-add_values n u [] m = ground arith
contains-add_values n u ((l, v) ∷ lbls) m =
    contains-add_values n u lbls (add_value l v m) ∙ ground (arith, contains-add_value l v n u m)

module _ (F : Floats) (wf : GithubWorkflowConfig F) (infos : WorkflowInfos) where
  -- A run has the value `v` under the label `l`.
  abbrev pub run_holds : Text → Text → WorkflowRun → Bool
  run_holds l v r = elim (labels_of F r wf infos) [ none ↦ false | some lbls ↦ holds l v lbls ]

  abbrev pub run_matches : (Labels → Bool) → WorkflowRun → Bool
  run_matches matches r = elim (labels_of F r wf infos) [ none ↦ false | some lbls ↦ matches lbls ]

  -- The values that are matched are those of the runs.
  abbrev pub Describes : List WorkflowRun → Matched → Type 0
  Describes runs m = (l v : Text) → contains_str (values_at l m) v ≡ any (run_holds l v) runs

  labels_of_total :
      (r : WorkflowRun) (id : ℤ)
      → r.workflow_id ≡ some id
      → (lbls : Labels) × (labels_of F r wf infos ≡ some lbls)
  unfolding labels_of
  labels_of_total r id h = elim (Option-cases (find_info id infos)) [
    | inl e ↦ (base_labels F id wf, ground arith)
    | inr (info, e) ↦ (info_labels info (base_labels F id wf), ground arith)
  ]

  module _ (matches : Labels → Bool) where
    filter_from_lem :
        (runs filtered : List WorkflowRun) (m : Matched) (out : List WorkflowRun) (m' : Matched)
        → Describes filtered m
        → filter_from F wf infos matches runs filtered m ≡ some (out, m')
        → (out ≡ filtered ++ keep (run_matches matches) runs) × Describes out m'
    unfolding filter_from
    filter_from_lem [] filtered m out m' h e =
        let f : out ≡ filtered = cc in
        let g : m' ≡ m = cc in (f ∙ sym (append-nil filtered), rw (f, g) h)
    filter_from_lem (r ∷ runs) filtered m out m' h e =
        elim (Option-cases (labels_of F r wf infos)) [
          | inl nothing ↦ absurd (
              let bad : ◌≡◌ {A = Option (List WorkflowRun × Matched)} none (some (out, m')) =
                ground arith in
              cc)
          | inr (lbls, some_labels) ↦ elim (Bool-cases (matches lbls)) [
            | inl yes_ ↦
                (let next : filter_from F wf infos matches runs (filtered ++ (r ∷ []))
                        (add_values lbls m)
                      ≡ some (out, m') =
                    ground arith in
                  let ih =
                    filter_from_lem runs (filtered ++ (r ∷ [])) (add_values lbls m) out m'
                      (λ l v.
                        (let shown : run_holds l v r ≡ holds l v lbls = ground arith in
                          contains-add_values l v lbls m
                          ∙ ground (arith, h l v, any-append (run_holds l v) filtered (r ∷ []))))
                      next in
                  (
                    ih.0
                        ∙ append_assoc filtered (r ∷ []) (keep (run_matches matches) runs)
                        ∙ (let yes_r : run_matches matches r ≡ true = ground arith in
                            rw yes_r refl),
                    ih.1,
                  ))
            | inr no_ ↦
                (let next : filter_from F wf infos matches runs filtered m ≡ some (out, m') =
                    ground arith in
                  let ih = filter_from_lem runs filtered m out m' h next in
                  (ih.0 ∙ ground arith, ih.1))
          ]
        ]

    filter_from_total :
        (runs filtered : List WorkflowRun) (m : Matched)
        → All (λ r. (id : ℤ) × (r.workflow_id ≡ some id)) runs
        → (out : List WorkflowRun) × (m' : Matched) × (filter_from F wf infos matches runs filtered
              m
            ≡ some (out, m'))
    unfolding filter_from
    filter_from_total [] filtered m _ = (filtered, m, refl)
    filter_from_total (r ∷ runs) filtered m ((id, has_id), all_have) =
        let (lbls, e) = labels_of_total r id has_id in
        let kept : List WorkflowRun = if matches lbls then filtered ++ (r ∷ []) else filtered in
        let (out, m', rest) =
          filter_from_total runs kept (if matches lbls then add_values lbls m else m) all_have in
        (out, m', ground arith)

    -- If every run has a workflow, the filtering returns the runs whose labels the selector
    -- matches, in order, and a value is listed under a label exactly if one of these runs has it
    -- there.
    pub filter_by_selector_lem :
        (runs : List WorkflowRun)
        → All (λ r. (id : ℤ) × (r.workflow_id ≡ some id)) runs
        → (m : Matched) × (filter_by_selector F wf infos matches runs
            ≡ some (keep (run_matches matches) runs, m))
          × Describes (keep (run_matches matches) runs) m
    unfolding filter_by_selector lookup contains_str
    filter_by_selector_lem runs all_have =
        let (out, m, e) = filter_from_total runs [] [] all_have in
        let (kept, described) = filter_from_lem runs [] [] out m (λ l v. refl) e in
        (m, e ∙ rw kept refl, rw (← kept) described)
