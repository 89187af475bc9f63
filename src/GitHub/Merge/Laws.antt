-- ===== src/GitHub/Merge/Laws.antt =====
-- What a merge leaves under each name (examples/add-runner.js, module 2995).
use github_runner_autoscaler.Common.{
  ◌≡◌, refl, ◌∙◌, arith, Text, text_eq, text_eq_iff, text_eq→eq, Option, none, some, if◌then◌else◌,
  Bool-cases, inl, inr,
}
use github_runner_autoscaler.GitHub.Merge.{
  Value, Fields, end, field, find_field, set_field, merge_fields, merge_value, merge_deep,
}

pub find-set :
    (k n : Text) (v : Value) (fs : Fields)
    → find_field n (set_field k v fs) ≡ (if text_eq k n then some v else find_field n fs)
unfolding find_field set_field
find-set k n v end = refl
find-set k n v (field j w fs) =
    ground (arith, find-set k n v fs, text_eq_iff j k, text_eq_iff k n, text_eq_iff j n)

-- No name stands twice.
abbrev pub HasNo : Text → Fields → Type 0
HasNo k fs = find_field k fs ≡ none

abbrev pub AreDistinct : Fields → Type 0
AreDistinct end = Unit
AreDistinct (field k v fs) = HasNo k fs × AreDistinct fs

-- What a merge into `result` leaves under a name.
abbrev left : Option Value → Option Value → Option Value → Option Value
left d r none = r
left d r (some v) = some (merge_value d v)

-- What the merged options hold under a name, from what the two hold.
abbrev pub merged : Option Value → Option Value → Option Value
merged d none = d
merged d (some v) = some (merge_value d v)

find-merge_fields :
    (n : Text) (defaults result options : Fields)
    → AreDistinct options
    → find_field n (merge_fields defaults result options)
      ≡ left (find_field n defaults) (find_field n result) (find_field n options)
unfolding merge_fields find_field
find-merge_fields n defaults result end h = refl
find-merge_fields n defaults result (field k v fs) (hk, h) =
    let value = merge_value (find_field k defaults) v in
    let tail = find-merge_fields n defaults (set_field k value result) fs h in
    elim (Bool-cases (text_eq k n)) [
      | inl e ↦
          let same : k ≡ n = text_eq→eq k n e in
          let no : find_field n fs ≡ none = rw same at hk in
          tail ∙ rw (find-set k n value result, e, no, same)
      | inr e ↦ tail ∙ rw (find-set k n value result, e)
    ]

-- The merged options hold under a name what the defaults hold, if the options hold nothing there;
-- else what the options hold, an object merged into that of the defaults. The names of the options
-- are distinct.
pub find-merge_deep :
    (n : Text) (defaults options : Fields)
    → AreDistinct options
    → find_field n (merge_deep defaults options)
      ≡ merged (find_field n defaults) (find_field n options)
unfolding merge_deep
find-merge_deep n defaults options h =
    find-merge_fields n defaults defaults options h ∙ both (find_field n options)
  where
    both :
        (o : Option Value)
        → left (find_field n defaults) (find_field n defaults) o ≡ merged (find_field n defaults) o
    both none = refl
    both (some v) = refl
