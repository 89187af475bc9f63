-- ===== src/AddRunner/Resources/Selector.antt =====
-- The selector made from the labels (add-runner/src/resources.ts).
use github_runner_autoscaler.Common.{
  ℕ, ◌≡◌, ◌≢◌, refl, arith, Text, codes, true, ◌||◌, List, [], ◌∷◌, map, All, All-append, Lacks,
  split, split-join, cons_first, join, ◌==◌, is_digit, is_lower, is_upper,
}
use github_runner_autoscaler.AddRunner.Resources.{clean_unit, selector_key, label_selector}

-- A letter, a digit, a dash or an underscore.
abbrev pub IsKeyUnit : ℕ → Type 0
IsKeyUnit c = (is_lower c || is_upper c || is_digit c || c == b'-' || c == b'_') ≡ true

clean_unit-IsKeyUnit : (c : ℕ) → IsKeyUnit (clean_unit c)
clean_unit-IsKeyUnit c = ground arith

map-clean-IsKeyUnit : (l : Text) → All IsKeyUnit (map clean_unit l)
map-clean-IsKeyUnit [] = tt
map-clean-IsKeyUnit (c ∷ l) = (clean_unit-IsKeyUnit c, map-clean-IsKeyUnit l)

selector_key-IsKeyUnit : (l : Text) → All IsKeyUnit (selector_key l)
unfolding selector_key
selector_key-IsKeyUnit l =
    All-append IsKeyUnit (codes "wf_runs_on_") (map clean_unit l) (ground arith)
      (map-clean-IsKeyUnit l)

IsKeyUnit-not-comma : (c : ℕ) → IsKeyUnit c → c ≢ b','
IsKeyUnit-not-comma c h = ground arith

keys-Lack : (s : Text) → All IsKeyUnit s → Lacks b',' s
keys-Lack [] h = tt
keys-Lack (c ∷ s) (hc, h) = (IsKeyUnit-not-comma c hc, keys-Lack s h)

selector_keys-Lack : (ls : List Text) → All (Lacks b',') (map selector_key ls)
selector_keys-Lack [] = tt
selector_keys-Lack (l ∷ ls) =
    (keys-Lack (selector_key l) (selector_key-IsKeyUnit l), selector_keys-Lack ls)

split-join_keys :
    (ls : List Text)
    → ls ≢ []
    → split b',' (join (b',' ∷ []) (map selector_key ls)) ≡ map selector_key ls
split-join_keys [] h = absurd (h refl)
split-join_keys (l ∷ ls) h =
    split-join b',' (selector_key l) (map selector_key ls) (selector_keys-Lack (l ∷ ls))

cons_first-ne-nil : (c : ℕ) (ps : List Text) → cons_first c ps ≢ []
cons_first-ne-nil c [] e = cc
cons_first-ne-nil c (p ∷ ps) e = cc

split-ne-nil : (s : Text) → split b',' s ≢ []
split-ne-nil [] e = cc
split-ne-nil (c ∷ s) e = ground (arith, cons_first-ne-nil c (split b',' s))

-- The selector has one requirement for each comma-separated label, in order: the label's key,
-- which consists of letters, digits, dashes and underscores alone.
pub split-label_selector :
    (labels : Text)
    → (split b',' (label_selector labels) ≡ map selector_key (split b',' labels))
      × All (All IsKeyUnit) (split b',' (label_selector labels))
unfolding label_selector
split-label_selector labels =
    let parts = split-join_keys (split b',' labels) (split-ne-nil labels) in
    (parts, rw parts (every (split b',' labels)))
  where
    every : (ls : List Text) → All (All IsKeyUnit) (map selector_key ls)
    every [] = tt
    every (l ∷ ls) = (selector_key-IsKeyUnit l, every ls)
