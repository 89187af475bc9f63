-- ===== src/CommandLine/Syntax/Forms.antt =====
-- How `--name`, `--name=value` and plain values are read (examples/add-runner.js, module 8098).
use github_runner_autoscaler.Common.{
  ℕ, ◌≡◌, ◌≢◌, refl, arith, Text, true, false, [], ◌∷◌, ◌++◌, ◌==◌, some, none, All,
}
use github_runner_autoscaler.AddRunner.Config.{is_space}
use github_runner_autoscaler.CommandLine.Syntax.{
  dash, visible, short, long, combined_short, line, is_line_end, up_to_equals, name_equals,
  opt_equals, is_option, is_long_option, is_option_equals_notation, is_value, get_option_name,
}

-- A unit that may stand in the name of an option.
abbrev pub IsNameUnit : ℕ → Type 0
IsNameUnit c = (is_space c ≡ false) × ((c == b'=') ≡ false)

-- A name with at least one unit.
abbrev pub IsName : Text → Type 0
IsName n = (n ≢ []) × All IsNameUnit n

abbrev pub IsLine : Text → Type 0
IsLine = All (λ c. is_line_end c ≡ false)

-- `--name`
abbrev pub long_arg : Text → Text
long_arg n = dash ∷ dash ∷ n

-- `--name=value`
abbrev pub equals_arg : Text → Text → Text
equals_arg n v = dash ∷ dash ∷ n ++ (b'=' ∷ v)

visible_of_name : (n : Text) → All IsNameUnit n → visible n ≡ n
unfolding visible
visible_of_name [] h = refl
visible_of_name (c ∷ n) ((hc, _), h) = rw (hc, visible_of_name n h)

line_of_line : (v : Text) → IsLine v → line v ≡ v
unfolding line
line_of_line [] h = refl
line_of_line (c ∷ v) (hc, h) = rw (hc, line_of_line v h)

up_to_equals-none : (n : Text) → All IsNameUnit n → up_to_equals n ≡ none
unfolding up_to_equals
up_to_equals-none [] h = refl
up_to_equals-none (c ∷ n) ((hs, he), h) = rw (hs, he, up_to_equals-none n h)

up_to_equals-some :
    (n v : Text) → All IsNameUnit n → IsLine v → up_to_equals (n ++ (b'=' ∷ v)) ≡ some (n, v)
unfolding up_to_equals
up_to_equals-some [] v h k = rw (line_of_line v k)
up_to_equals-some (c ∷ n) v ((hs, he), h) k = rw (hs, he, up_to_equals-some n v h k)

pub opt_equals-none : (n : Text) → IsName n → opt_equals (long_arg n) ≡ none
unfolding opt_equals name_equals
opt_equals-none [] (h, _) = absurd (h refl)
opt_equals-none (c ∷ n) (_, ((hs, he), h)) = rw (hs, up_to_equals-none n h)

pub opt_equals-some :
    (n v : Text) → IsName n → IsLine v → opt_equals (equals_arg n v) ≡ some (long_arg n, v)
unfolding opt_equals name_equals
opt_equals-some [] v (h, _) k = absurd (h refl)
opt_equals-some (c ∷ n) v (_, ((hs, he), h)) k = rw (hs, up_to_equals-some n v h k)

long_of_name : (n : Text) → IsName n → long (long_arg n) ≡ some n
unfolding long
long_of_name [] (h, _) = absurd (h refl)
long_of_name (c ∷ n) (_, h) = rw (visible_of_name (c ∷ n) h)

pub is_option-long_arg : (n : Text) → IsName n → is_option (long_arg n) ≡ true
unfolding is_option is_option_equals_notation
is_option-long_arg n h = ground (arith, long_of_name n h, opt_equals-none n h)

pub is_option-equals_arg : (n v : Text) → IsName n → IsLine v → is_option (equals_arg n v) ≡ false
unfolding is_option is_option_equals_notation
is_option-equals_arg n v h k = ground (arith, opt_equals-some n v h k)

pub combined_short-dashes : (s : Text) → combined_short (dash ∷ dash ∷ s) ≡ false
unfolding combined_short
combined_short-dashes [] = refl
combined_short-dashes (c ∷ s) = refl

-- A value is no option, holds no combined letters, and has no name in front of an `=`.
pub is_value_parts :
    (v : Text)
    → is_value v ≡ true
    → (is_option v ≡ false) × (combined_short v ≡ false) × (opt_equals v ≡ none)
unfolding is_value
is_value_parts v h = (ground arith, ground arith, unfold is_option_equals_notation in ground arith)

pub get_option_name-long_arg : (n : Text) → IsName n → get_option_name (long_arg n) ≡ some n
unfolding get_option_name is_long_option is_option_equals_notation short
get_option_name-long_arg [] (h, _) = absurd (h refl)
get_option_name-long_arg (c ∷ n) h =
    ground (arith, long_of_name (c ∷ n) h, opt_equals-none (c ∷ n) h)

pub short-long_arg : (n : Text) → IsName n → short (long_arg n) ≡ none
unfolding short
short-long_arg [] (h, _) = absurd (h refl)
short-long_arg (c ∷ n) h = refl
