-- ===== src/CommandLine/Parser/Laws.antt =====
-- Arguments as texts (examples/add-runner.js, module 8098): combined short options.
use github_runner_autoscaler.Common.{
  ◌≡◌, refl, ap, ◌∙◌, sym, Text, true, false, List, [], ◌∷◌, ◌++◌, append_assoc, map, Bool-cases,
  inl, inr,
}
use github_runner_autoscaler.CommandLine.Syntax.{dash, combined_short}
use github_runner_autoscaler.CommandLine.Parser.{
  Item, text_of, letters, split_letters, expand_combined,
}

-- `-abc` as `-a`, `-b`, `-c`.
abbrev pub dashed_letters : Text → List Text
dashed_letters [] = []
dashed_letters (c ∷ s) = (dash ∷ c ∷ []) ∷ dashed_letters s

abbrev pub separate : Text → List Text
separate [] = []
separate (c ∷ s) = dashed_letters s

map_text-letters : (orig s : Text) → map text_of (letters orig s) ≡ dashed_letters s
unfolding letters
map_text-letters orig [] = refl
map_text-letters orig (c ∷ s) = ap (λ r. (dash ∷ c ∷ []) ∷ r) (map_text-letters orig s)

map_text-split : (arg : Text) → map text_of (split_letters arg) ≡ separate arg
map_text-split [] = refl
map_text-split (c ∷ s) = map_text-letters (c ∷ s) s

-- The texts of the items of an argument list.
unfoldable pub texts : List Text → List Text
texts argv = map text_of (expand_combined argv)

map_append : (xs ys : List Item) → map text_of (xs ++ ys) ≡ map text_of xs ++ map text_of ys
map_append [] ys = refl
map_append (x ∷ xs) ys = ap (λ r. text_of x ∷ r) (map_append xs ys)

texts_combined :
    (arg : Text) (argv : List Text)
    → combined_short arg ≡ true
    → texts (arg ∷ argv) ≡ separate arg ++ texts argv
unfolding texts expand_combined
texts_combined arg argv h = rw h (
    map_append (split_letters arg) (expand_combined argv)
    ∙ ap (λ r. r ++ map text_of (expand_combined argv)) (map_text-split arg))

pub texts_plain :
    (arg : Text) (argv : List Text)
    → combined_short arg ≡ false
    → texts (arg ∷ argv) ≡ arg ∷ texts argv
unfolding texts expand_combined
texts_plain arg argv h = rw h

texts_dashed :
    (s : Text) (argv : List Text)
    → texts (dashed_letters s ++ argv) ≡ dashed_letters s ++ texts argv
texts_dashed [] argv = refl
texts_dashed (c ∷ s) argv =
    texts_plain (dash ∷ c ∷ []) (dashed_letters s ++ argv) (unfold combined_short in refl)
    ∙ ap (λ r. (dash ∷ c ∷ []) ∷ r) (texts_dashed s argv)

texts_behind :
    (arg : Text) (argv : List Text) → texts (separate arg ++ argv) ≡ separate arg ++ texts argv
texts_behind [] argv = refl
texts_behind (c ∷ s) argv = texts_dashed s argv

-- Two tails with the same texts have the same texts behind any front.
pub texts_front :
    (front : List Text) (s t : List Text)
    → texts s ≡ texts t
    → texts (front ++ s) ≡ texts (front ++ t)
texts_front [] s t e = e
texts_front (arg ∷ front) s t e = elim (Bool-cases (combined_short arg)) [
  | inl h ↦
      texts_combined arg (front ++ s) h
      ∙ ap (λ r. separate arg ++ r) (texts_front front s t e)
      ∙ sym (texts_combined arg (front ++ t) h)
  | inr h ↦
      texts_plain arg (front ++ s) h
      ∙ ap (λ r. arg ∷ r) (texts_front front s t e)
      ∙ sym (texts_plain arg (front ++ t) h)
]

pub texts-separate :
    (arg : Text) (front back : List Text)
    → combined_short arg ≡ true
    → texts (front ++ (arg ∷ back)) ≡ texts (front ++ (separate arg ++ back))
texts-separate arg front back h =
    texts_front front (arg ∷ back) (separate arg ++ back)
      (texts_combined arg back h ∙ sym (texts_behind arg back))

pub texts-append : (s t : List Text) → texts (s ++ t) ≡ texts s ++ texts t
texts-append [] t = unfold texts expand_combined in refl
texts-append (arg ∷ s) t = elim (Bool-cases (combined_short arg)) [
  | inl h ↦
      texts_combined arg (s ++ t) h
      ∙ ap (λ r. separate arg ++ r) (texts-append s t)
      ∙ sym (append_assoc (separate arg) (texts s) (texts t))
      ∙ ap (λ r. r ++ texts t) (sym (texts_combined arg s h))
  | inr h ↦
      texts_plain arg (s ++ t) h
      ∙ ap (λ r. arg ∷ r) (texts-append s t)
      ∙ ap (λ r. r ++ texts t) (sym (texts_plain arg s h))
]
