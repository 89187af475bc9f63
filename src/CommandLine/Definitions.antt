-- ===== src/CommandLine/Definitions.antt =====
-- Option definitions (examples/add-runner.js, module 8098, "option-definitions"). The property
-- `group` is left out: the command's options have none.
use github_runner_autoscaler.Common.{
  ℕ, Text, codes, text_eq, Bool, true, false, not, ◌&&◌, ◌||◌, List, [], ◌∷◌, map, Option, none,
  some, if◌then◌else◌, ◌==◌, is_digit, all, any, length, Result, ok, err,
}
use github_runner_autoscaler.CommandLine.Syntax.{dash, is_option, short, is_some, get_option_name}

-- The setter function: `String`, `Number` or `Boolean`.
pub data Kind : Type 0 where
  string_kind number_kind boolean_kind : Kind

-- `Number(text)`: `whole` for plain decimal digits (exact below 2 ^ 53, where JavaScript rounds);
-- `other` stands for what it gives for any other text.
pub data Number : Type 0 where
  whole : ℕ → Number
  other : Text → Number

pub data Scalar : Type 0 where
  undefined null : Scalar
  text : Text → Scalar
  number : Number → Scalar
  boolean : Bool → Scalar

-- The value of an option: one, or an array for one that is given more than once.
pub data Value : Type 0 where
  one : Scalar → Value
  many : List Scalar → Value

-- `OptionDefinition`
pub record Definition : Type 0 where
  pub name : Text
  pub kind : Kind
  pub alias : Option Text
  pub multiple : Bool
  pub lazy_multiple : Bool
  pub default_option : Option Bool
  pub default_value : Option Value

-- `isBoolean`
abbrev pub is_boolean_kind : Kind → Bool
is_boolean_kind boolean_kind = true
is_boolean_kind _ = false

abbrev pub is_boolean : Definition → Bool
is_boolean d = is_boolean_kind d.kind

-- `isMultiple`
abbrev pub is_multiple : Definition → Bool
is_multiple d = d.multiple || d.lazy_multiple

-- What the parser hands over: `undefined`, `null`, `true` or a text.
pub data Given : Type 0 where
  absent empty flag : Given
  given : Text → Given

-- What `command-line-args` throws, by the name of the error, with its properties: `optionName`,
-- `value`, and for an option that is set already its name, its value so far (which the message
-- shows) and the value that was refused.
pub data ParseError : Type 0 where
  invalid_definitions : ParseError
  unknown_option : Text → ParseError
  unknown_value : Text → ParseError
  already_set : Text → Value → Given → ParseError

abbrev pub contains : List Text → Text → Bool
contains [] t = false
contains (s ∷ ss) t = text_eq s t || contains ss t

-- The names that every object has: `items[value]` is a function, or the prototype, at each of them.
abbrev inherited : List Text
inherited =
    codes "constructor"
    ∷ codes "toString"
    ∷ codes "toLocaleString"
    ∷ codes "valueOf"
    ∷ codes "hasOwnProperty"
    ∷ codes "isPrototypeOf"
    ∷ codes "propertyIsEnumerable"
    ∷ codes "__proto__"
    ∷ codes "__defineGetter__"
    ∷ codes "__defineSetter__"
    ∷ codes "__lookupGetter__"
    ∷ codes "__lookupSetter__"
    ∷ []

-- A value as a key of an object.
abbrev pub key_of : Option Text → Text
key_of none = codes "undefined"
key_of (some t) = t

abbrev pub defined : Option Text → List Text → List Text
defined none seen = seen
defined (some t) seen = t ∷ seen

-- `hasDuplicates`; `seen` are the keys of `items`.
unfoldable pub duplicates_from : List Text → List (Option Text) → Bool
duplicates_from seen [] = false
duplicates_from seen (v ∷ vs) =
    (contains seen (key_of v) || contains inherited (key_of v))
    || duplicates_from (defined v seen) vs

unfoldable pub has_duplicates : List (Option Text) → Bool
has_duplicates vs = duplicates_from [] vs

abbrev bool_text : Option Bool → Option Text
bool_text none = none
bool_text (some true) = some (codes "true")
bool_text (some false) = some (codes "false")

-- `t.isNumber` on the digits; every other numeral has more than one character, and is refused
-- under the same name by the next test.
abbrev is_numeral : Text → Bool
is_numeral [] = false
is_numeral (c ∷ s) = all is_digit (c ∷ s)

abbrev bad_alias : Option Text → Bool
bad_alias none = false
bad_alias (some a) = is_numeral a || not (length a == 1) || text_eq a (dash ∷ [])

abbrev is_empty : Text → Bool
is_empty [] = true
is_empty (c ∷ s) = false

abbrev pub is_default : Option Bool → Bool
is_default (some b) = b
is_default none = false

abbrev default_boolean : Definition → Bool
default_boolean d = is_boolean d && is_default d.default_option

-- `validate`; each test that fails throws under the same name.
unfoldable pub is_valid : List Definition → Bool
is_valid defs = not (
    any (λ d. is_empty d.name) defs
    || any (λ d. bad_alias d.alias) defs
    || has_duplicates (map (λ d. some d.name) defs)
    || has_duplicates (map (λ d. d.alias) defs)
    || has_duplicates (map (λ d. bool_text d.default_option) defs)
    || any default_boolean defs)

unfoldable pub validate : List Definition → Result ParseError (List Definition)
validate defs = if is_valid defs then ok defs else err invalid_definitions

-- `find` by a test
unfoldable pub find {ℓ} : {A : Type ℓ} → (A → Bool) → List A → Option A
find p [] = none
find p (x ∷ xs) = if p x then some x else find p xs

-- `def.alias === name`, and `def.name === name`, with a name that may be null
abbrev pub same : Option Text → Option Text → Bool
same (some a) (some b) = text_eq a b
same _ _ = false

-- `Definitions.get`
unfoldable pub get : List Definition → Text → Option Definition
unfolding find
get defs arg =
    if is_option arg
    then (if is_some (short arg)
        then find (λ d. same d.alias (get_option_name arg)) defs
        else find (λ d. same (some d.name) (get_option_name arg)) defs)
    else find (λ d. text_eq d.name arg) defs

-- `getDefault`
unfoldable pub get_default : List Definition → Option Definition
unfolding find
get_default defs = find (λ d. is_default d.default_option) defs
