-- ===== src/GitHub/Routes/Laws.antt =====
-- What a decorated method does with its options (examples/add-runner.js, module 6752).
use github_runner_autoscaler.Common.{
  ◌≡◌, ◌≢◌, refl, ap, sym, ◌∙◌, arith, Text, text_eq, text_eq_iff, text_eq→eq, Option, none, some,
  if◌then◌else◌, Bool-cases, Option-cases, inl, inr,
}
use github_runner_autoscaler.CommandLine.Syntax.{or_else}
use github_runner_autoscaler.GitHub.Merge.{Value, Fields, end, field, find_field}
use github_runner_autoscaler.GitHub.Merge.Laws.{find-set}
use github_runner_autoscaler.GitHub.Routes.{delete_field, alias_field, rename_parameter}

find-delete :
    (k n : Text) (fs : Fields)
    → find_field n (delete_field k fs) ≡ (if text_eq k n then none else find_field n fs)
unfolding find_field delete_field
find-delete k n end = ground arith
find-delete k n (field j v fs) =
    ground (arith, find-delete k n fs, text_eq_iff j k, text_eq_iff k n, text_eq_iff j n)

find-alias :
    (alias n : Text) (options : Fields) (v : Value)
    → find_field n (alias_field alias (find_field alias options) (some v) options) ≡ (
        if text_eq alias n
        then or_else (find_field alias options) (some v)
        else find_field n options)
find-alias alias n options v = elim (Option-cases (find_field alias options)) [
  | inl e ↦ rw (e, find-set alias n v options)
  | inr (w, e) ↦ elim (Bool-cases (text_eq alias n)) [
    | inl b ↦ rw (e, b, ← text_eq→eq alias n b) e
    | inr b ↦ rw (e, b)
  ]
]

-- What `rename_parameter` leaves under a name.
abbrev pub renamed_field : Text → Text → Text → Fields → Option Value
renamed_field name alias n options =
    if text_eq name n
    then none
    else if text_eq alias n
    then or_else (find_field alias options) (find_field name options)
    else find_field n options

-- After a deprecated parameter was renamed, nothing stands under its old name; under the new name
-- stands what was there, or else what stood under the old one; and every other name is left alone.
-- The two names differ.
pub find-rename_parameter :
    (name alias n : Text) (options : Fields)
    → name ≢ alias
    → find_field n (rename_parameter name alias options) ≡ renamed_field name alias n options
unfolding rename_parameter
find-rename_parameter name alias n options h = elim (Option-cases (find_field name options)) [
  | inl e ↦ rw e (elim (Bool-cases (text_eq name n)) [
    | inl b ↦ rw b (ap (λ k. find_field k options) (sym (text_eq→eq name n b)) ∙ e)
    | inr b ↦ rw b (elim (Bool-cases (text_eq alias n)) [
      | inl a ↦ rw a (
          ap (λ k. find_field k options) (sym (text_eq→eq alias n a))
          ∙ sym (or_else_none (find_field alias options)))
      | inr a ↦ rw a
    ])
  ])
  | inr (v, e) ↦ rw (
    e,
    find-delete name n (alias_field alias (find_field alias options) (some v) options),
    find-alias alias n options v,
  )
]
  where
    or_else_none : (o : Option Value) → or_else o none ≡ o
    or_else_none none = refl
    or_else_none (some v) = refl
