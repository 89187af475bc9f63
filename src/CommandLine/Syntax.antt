-- ===== src/CommandLine/Syntax.antt =====
-- The forms of an argument (examples/add-runner.js, module 8098, "argv-tools").
pub mod Forms
use github_runner_autoscaler.Common.{
  ℕ, Text, codes, Bool, true, false, not, ◌&&◌, ◌||◌, List, [], ◌∷◌, ◌++◌, map, Option, none, some,
  if◌then◌else◌, ◌==◌, is_digit, all, length, leb,
}
use github_runner_autoscaler.AddRunner.Config.{is_space}

abbrev pub dash : ℕ
dash = b'-'

-- `[^\d-]`
abbrev pub is_letter : ℕ → Bool
is_letter c = not (is_digit c) && not (c == dash)

-- The run of `\S` at the front.
unfoldable pub visible : Text → Text
visible [] = []
visible (c ∷ s) = let rest = visible s in if is_space c then [] else c ∷ rest

abbrev pub if_any : Text → Option Text
if_any [] = none
if_any (c ∷ s) = some (c ∷ s)

-- `arg.match(/^-([^\d-])$/)`: the letter
unfoldable pub short : Text → Option ℕ
short (a ∷ (c ∷ [])) = if a == dash && is_letter c then some c else none
short _ = none

-- `arg.match(/^--(\S+)/)`: the name
unfoldable pub long : Text → Option Text
long (a ∷ (b ∷ s)) = if a == dash && b == dash then if_any (visible s) else none
long _ = none

-- `/^-[^\d-]{2,}$/.test(arg)`
unfoldable pub combined_short : Text → Bool
combined_short (a ∷ (c ∷ (d ∷ s))) = a == dash && all is_letter (c ∷ d ∷ s)
combined_short _ = false

abbrev pub is_line_end : ℕ → Bool
is_line_end c = c == 10 || c == 13 || c == 0x2028 || c == 0x2029

-- `.*`
unfoldable pub line : Text → Text
line [] = []
line (c ∷ s) = let rest = line s in if is_line_end c then [] else c ∷ rest

abbrev pub cons_name : ℕ → Option (Text × Text) → Option (Text × Text)
cons_name c none = none
cons_name c (some (n, v)) = some (c ∷ n, v)

-- `\S*?=(.*)`: up to the first `=`
unfoldable pub up_to_equals : Text → Option (Text × Text)
up_to_equals [] = none
up_to_equals (c ∷ s) =
    let rest = cons_name c (up_to_equals s) in
    if c == b'=' then some ([], line s) else if is_space c then none else rest

-- `\S+?=(.*)`: the first unit is taken as it is
unfoldable pub name_equals : Text → Option (Text × Text)
unfolding up_to_equals line
name_equals [] = none
name_equals (c ∷ s) = if is_space c then none else cons_name c (up_to_equals s)

abbrev pub dashed : Option (Text × Text) → Option (Text × Text)
dashed none = none
dashed (some (n, v)) = some (dash ∷ dash ∷ n, v)

-- `arg.match(/^(--\S+?)=(.*)/)`: the option with its dashes, and the value
unfoldable pub opt_equals : Text → Option (Text × Text)
unfolding name_equals
opt_equals (a ∷ (b ∷ s)) = if a == dash && b == dash then dashed (name_equals s) else none
opt_equals _ = none

abbrev pub is_some {ℓ} : {A : Type ℓ} → Option A → Bool
is_some none = false
is_some (some a) = true

unfoldable pub is_option_equals_notation : Text → Bool
unfolding opt_equals
is_option_equals_notation arg = is_some (opt_equals arg)

unfoldable pub is_option : Text → Bool
unfolding short long is_option_equals_notation
is_option arg = (is_some (short arg) || is_some (long arg)) && not (is_option_equals_notation arg)

unfoldable pub is_long_option : Text → Bool
unfolding long is_option_equals_notation
is_long_option arg = is_some (long arg) && not (is_option_equals_notation arg)

-- `.replace(/^--/, '')`
abbrev pub strip_dashes : Text → Text
strip_dashes (a ∷ (b ∷ s)) = if a == dash && b == dash then s else a ∷ b ∷ s
strip_dashes s = s

abbrev pub or_else {ℓ} : {A : Type ℓ} → Option A → Option A → Option A
or_else none d = d
or_else (some a) d = some a

abbrev pub short_name : Option ℕ → Option Text
short_name none = none
short_name (some c) = some (c ∷ [])

abbrev pub equals_name : Option (Text × Text) → Option Text
equals_name none = none
equals_name (some (n, v)) = some (strip_dashes n)

-- `getOptionName`
unfoldable pub get_option_name : Text → Option Text
unfolding short long opt_equals is_long_option
get_option_name arg =
    or_else (short_name (short arg))
      (if is_long_option arg then long arg else equals_name (opt_equals arg))

unfoldable pub is_value : Text → Bool
unfolding is_option combined_short is_option_equals_notation
is_value arg = not (is_option arg || combined_short arg || is_option_equals_notation arg)
