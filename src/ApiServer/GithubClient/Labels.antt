-- ===== src/ApiServer/GithubClient/Labels.antt =====
-- github_client.go: the labels of a workflow do not depend on the order in which its jobs, which are
-- a Go map, are visited.
use mathlib.Core.Logic.{∥∥₁_elim}
use mathlib.Core.List.{Perm, Permᴰ}
use mathlib.Core.List.Permᴰ.{nil, cons, swap, trans}
use github_runner_autoscaler.Common.{
  ◌≡◌, ◌∙◌, sym, refl, Bool, true, false, ◌||◌, List, [], ◌∷◌, ◌++◌, Text, text_eq, text_eq_iff,
  text_eq_refl, All, any, arith, Bool-cases, inl, inr,
}
use github_runner_autoscaler.ApiServer.GithubClient.{
  contains_str, text_ltb, insert_sorted, sort_strings, add_labels, add_all_labels, process_workflow,
}

-- The order of texts.
text_ltb_irrefl : (s : Text) → text_ltb s s ≡ false
text_ltb_irrefl [] = refl
text_ltb_irrefl (c ∷ s) = ground (arith, text_ltb_irrefl s)

text_ltb_trans : (r s t : Text) → text_ltb r s ≡ true → text_ltb s t ≡ true → text_ltb r t ≡ true
text_ltb_trans [] [] t h k = ground arith
text_ltb_trans [] (b ∷ s) [] h k = ground arith
text_ltb_trans [] (b ∷ s) (c ∷ t) h k = refl
text_ltb_trans (a ∷ r) [] t h k = ground arith
text_ltb_trans (a ∷ r) (b ∷ s) [] h k = ground arith
text_ltb_trans (a ∷ r) (b ∷ s) (c ∷ t) h k = ground (arith, text_ltb_trans r s t)

text_ltb_total : (s t : Text) → text_eq s t ≡ false → text_ltb s t ≡ false → text_ltb t s ≡ true
text_ltb_total [] [] h k = ground arith
text_ltb_total [] (b ∷ t) h k = ground arith
text_ltb_total (a ∷ s) [] h k = refl
text_ltb_total (a ∷ s) (b ∷ t) h k = ground (arith, text_ltb_total s t)

-- Every text comes before the next ones.
abbrev pub IsAscending : List Text → Type 0
IsAscending [] = Unit
IsAscending (x ∷ xs) = All (λ y. text_ltb x y ≡ true) xs × IsAscending xs

-- What a text list holds, on inserting and adding.
contains-insert_sorted :
    (x t : Text) (ys : List Text)
    → contains_str (insert_sorted x ys) t ≡ (text_eq x t || contains_str ys t)
unfolding contains_str insert_sorted
contains-insert_sorted x t [] = ground arith
contains-insert_sorted x t (y ∷ ys) = ground (arith, contains-insert_sorted x t ys)

pub contains-sort :
    (t : Text) (xs : List Text) → contains_str (sort_strings xs) t ≡ contains_str xs t
unfolding contains_str sort_strings
contains-sort t [] = refl
contains-sort t (x ∷ xs) =
    ground (arith, contains-insert_sorted x t (sort_strings xs), contains-sort t xs)

pub contains-append :
    (t : Text) (xs ys : List Text)
    → contains_str (xs ++ ys) t ≡ (contains_str xs t || contains_str ys t)
unfolding contains_str
contains-append t [] ys = refl
contains-append t (x ∷ xs) ys = ground (arith, contains-append t xs ys)

contains-add :
    (t : Text) (acc ls : List Text)
    → contains_str (add_labels acc ls) t ≡ (contains_str acc t || contains_str ls t)
unfolding contains_str add_labels
contains-add t acc [] = ground arith
contains-add t acc (l ∷ ls) = ground (
  arith,
  contains-add t acc ls,
  contains-add t (acc ++ (l ∷ [])) ls,
  contains-append t acc (l ∷ []),
  text_eq_iff l t,
)

contains-add_all :
    (t : Text) (acc : List Text) (jobs : List (List Text))
    → contains_str (add_all_labels acc jobs) t
      ≡ (contains_str acc t || any (λ j. contains_str j t) jobs)
unfolding add_all_labels
contains-add_all t acc [] = ground arith
contains-add_all t acc (j ∷ jobs) =
    ground (arith, contains-add_all t (add_labels acc j) jobs, contains-add t acc j)

-- No text is held twice.
abbrev IsDistinct : List Text → Type 0
IsDistinct [] = Unit
IsDistinct (x ∷ xs) = (contains_str xs x ≡ false) × IsDistinct xs

IsDistinct-append :
    (xs : List Text) (l : Text)
    → IsDistinct xs
    → contains_str xs l ≡ false
    → IsDistinct (xs ++ (l ∷ []))
unfolding contains_str
IsDistinct-append [] l h new = (refl, tt)
IsDistinct-append (x ∷ xs) l h new = ground (
  arith,
  contains-append x xs (l ∷ []),
  IsDistinct-append xs l h.1,
  text_eq_iff l x,
  text_eq_iff x l,
)

add_labels-IsDistinct : (acc ls : List Text) → IsDistinct acc → IsDistinct (add_labels acc ls)
unfolding add_labels
add_labels-IsDistinct acc [] h = h
add_labels-IsDistinct acc (l ∷ ls) h = elim (Bool-cases (contains_str acc l)) [
  | inl old ↦ rw old (add_labels-IsDistinct acc ls h)
  | inr new ↦ rw new (add_labels-IsDistinct (acc ++ (l ∷ [])) ls (IsDistinct-append acc l h new))
]

add_all-IsDistinct :
    (acc : List Text) (jobs : List (List Text))
    → IsDistinct acc
    → IsDistinct (add_all_labels acc jobs)
unfolding add_all_labels
add_all-IsDistinct acc [] h = h
add_all-IsDistinct acc (j ∷ jobs) h =
    add_all-IsDistinct (add_labels acc j) jobs (add_labels-IsDistinct acc j h)

-- `x` comes before all of the texts.
abbrev Before : Text → List Text → Type 0
Before x = All (λ y. text_ltb x y ≡ true)

Before-trans : (x y : Text) (ys : List Text) → text_ltb x y ≡ true → Before y ys → Before x ys
Before-trans x y [] h hs = tt
Before-trans x y (z ∷ ys) h (hz, hs) = (text_ltb_trans x y z h hz, Before-trans x y ys h hs)

Before-insert :
    (w x : Text) (ys : List Text)
    → text_ltb w x ≡ true
    → Before w ys
    → Before w (insert_sorted x ys)
unfolding insert_sorted
Before-insert w x [] h hs = (h, tt)
Before-insert w x (y ∷ ys) h hs = ground (arith, Before-insert w x ys h hs.1)

not_contains : (x : Text) (ys : List Text) → Before x ys → contains_str ys x ≡ false
unfolding contains_str
not_contains x [] h = refl
not_contains x (y ∷ ys) h =
    ground (arith, not_contains x ys h.1, text_eq_iff y x, text_ltb_irrefl x)

insert-IsAscending :
    (x : Text) (ys : List Text)
    → IsAscending ys
    → contains_str ys x ≡ false
    → IsAscending (insert_sorted x ys)
unfolding insert_sorted contains_str
insert-IsAscending x [] h new = (tt, tt)
insert-IsAscending x (y ∷ ys) h new = elim (Bool-cases (text_ltb y x)) [
  | inl lt ↦ rw lt (Before-insert y x ys lt h.0, insert-IsAscending x ys h.1 (ground arith))
  | inr ge ↦
      (let lt : text_ltb x y ≡ true = text_ltb_total y x (ground arith) ge in
        rw ge ((lt, Before-trans x y ys lt h.0), h))
]

sort-IsAscending : (xs : List Text) → IsDistinct xs → IsAscending (sort_strings xs)
unfolding sort_strings
sort-IsAscending [] h = tt
sort-IsAscending (x ∷ xs) h =
    insert-IsAscending x (sort_strings xs) (sort-IsAscending xs h.1) (contains-sort x xs ∙ h.0)

-- A list that holds its first text cannot start behind it.
not_lt_of_same :
    (x y : Text) (xs ys : List Text)
    → Before y ys
    → contains_str (x ∷ xs) x ≡ contains_str (y ∷ ys) x
    → text_ltb x y ≡ false
unfolding contains_str
not_lt_of_same x y xs ys k same = elim (Bool-cases (text_ltb x y)) [
  | inr h ↦ h
  | inl lt ↦
      (let out = not_contains x (y ∷ ys) (lt, Before-trans x y ys lt k) in
        ground (arith, out, text_eq_refl x))
]

-- Ascending lists that hold the same texts are equal.
ascending_unique :
    (xs ys : List Text)
    → IsAscending xs
    → IsAscending ys
    → ((t : Text) → contains_str xs t ≡ contains_str ys t)
    → xs ≡ ys
unfolding contains_str
ascending_unique [] [] h k same = refl
ascending_unique [] (y ∷ ys) h k same = ground (arith, same y, text_eq_refl y)
ascending_unique (x ∷ xs) [] h k same = ground (arith, same x, text_eq_refl x)
ascending_unique (x ∷ xs) (y ∷ ys) h k same =
    let e : x ≡ y = elim (Bool-cases (text_eq x y)) [
      | inl e ↦ (text_eq_iff x y).0 e
      | inr ne ↦
          (let lt = text_ltb_total x y ne (not_lt_of_same x y xs ys k.0 (same x)) in
            let ge = not_lt_of_same y x ys xs h.0 (sym (same y)) in cc)
    ] in
    let rest : (t : Text) → contains_str xs t ≡ contains_str ys t = λ t.
      ground (arith, same t, e, not_contains x xs h.0, not_contains y ys k.0, text_eq_iff x t) in
    let tails = ascending_unique xs ys h.1 k.1 rest in cc

-- The labels are in order, each stands once, and they are those that some job names.
pub process_workflow-IsAscending : (jobs : List (List Text)) → IsAscending (process_workflow jobs)
unfolding process_workflow
process_workflow-IsAscending jobs =
    sort-IsAscending (add_all_labels [] jobs) (add_all-IsDistinct [] jobs tt)

contains-process_workflow :
    (t : Text) (jobs : List (List Text))
    → contains_str (process_workflow jobs) t ≡ any (λ j. contains_str j t) jobs
unfolding process_workflow contains_str
contains-process_workflow t jobs =
    contains-sort t (add_all_labels [] jobs) ∙ contains-add_all t [] jobs

or_swap : (a b c : Bool) → (a || (b || c)) ≡ (b || (a || c))
or_swap a b c = ground arith

any-perm {ℓ} : {A : Type ℓ} (p : A → Bool) {xs ys : List A} → Permᴰ xs ys → any p xs ≡ any p ys
any-perm p nil = refl
any-perm p (cons e d) = rw (e, any-perm p d)
any-perm p (swap {a} {b} {a'} {b'} {l} e f) = rw (e, f) (or_swap (p b') (p a') (any p l))
any-perm p (trans d d') = any-perm p d ∙ any-perm p d'

any_of_perm :
    (t : Text) (jobs others : List (List Text))
    → Perm jobs others
    → any (λ j. contains_str j t) jobs ≡ any (λ j. contains_str j t) others
any_of_perm t jobs others p = ∥∥₁_elim p (hlevel) (any-perm (λ j. contains_str j t))

-- The labels of a workflow are the same in whatever order its jobs are visited.
pub process_workflow-perm :
    (jobs others : List (List Text))
    → Perm jobs others
    → process_workflow jobs ≡ process_workflow others
process_workflow-perm jobs others p =
    ascending_unique (process_workflow jobs) (process_workflow others)
      (process_workflow-IsAscending jobs) (process_workflow-IsAscending others)
      λ t.
        contains-process_workflow t jobs
        ∙ any_of_perm t jobs others p
        ∙ sym (contains-process_workflow t others)
