-- ===== src/GitHub/Template.antt =====
-- URL templates (examples/add-runner.js, module 2995, @octokit/endpoint). A parameter is a text (a
-- number or a Boolean counts as its text), nothing, an array of texts or an object of texts.
pub mod Laws
use github_runner_autoscaler.Common.Dict.{lookup}
use github_runner_autoscaler.Common.{
  ℕ, ◌+◌, ◌-◌, ◌*◌, Text, codes, text_eq, is_digit, is_lower, Bool, true, false, not, ◌&&◌, ◌||◌,
  List, [], ◌∷◌, ◌++◌, map, Option, none, some, if◌then◌else◌, ◌==◌, take, join, split,
}
use github_runner_autoscaler.GitHub.Percent.{
  encode_unreserved, encode_reserved, map_text, append_texts,
}

pub data Param : Type 0 where
  undefined null : Param
  text : Text → Param
  array : List (Option Text) → Param
  object : List (Text × Option Text) → Param

abbrev pub Context : Type 0
Context = List (Text × Param)

-- The operator of an expression, if it has one.
abbrev pub Operator : Type 0
Operator = Option ℕ

abbrev pub is_operator : Operator → ℕ → Bool
is_operator none c = false
is_operator (some o) c = o == c

-- `isKeyOperator`
abbrev pub is_key_operator : Operator → Bool
is_key_operator o = is_operator o b';' || is_operator o b'&' || is_operator o b'?'

abbrev pub with_key : Option Text → Option Text → Option Text
with_key (some k) (some v) = some (k ++ (b'=' ∷ v))
with_key k v = none

-- `encodeValue`; an empty key is no key.
unfoldable pub encode_value : Operator → Text → Text → Option Text
encode_value o value key =
    let v =
      (if is_operator o b'+' || is_operator o b'#'
        then encode_reserved value
        else encode_unreserved value) in
    elim key [ [] ↦ v | c ∷ s ↦ with_key (encode_unreserved (c ∷ s)) v ]

-- What stands behind a variable: `:n` or `*`.
pub data Modifier : Type 0 where
  whole explode : Modifier
  prefix : ℕ → Modifier

abbrev pub shorten : Modifier → Text → Text
shorten (prefix n) t = take n t
shorten m t = t

-- Texts that may each throw.
abbrev pub sequence : List (Option Text) → Option (List Text)
sequence [] = some []
sequence (none ∷ ts) = none
sequence (some t ∷ ts) = elim (sequence ts) [ none ↦ none | some us ↦ some (t ∷ us) ]

abbrev pub key_for : Operator → Text → Text
key_for o key = if is_key_operator o then key else []

unfoldable pub array_values : Operator → Text → List (Option Text) → List (Option Text)
array_values o key [] = []
array_values o key (none ∷ vs) = array_values o key vs
array_values o key (some v ∷ vs) = encode_value o v key ∷ array_values o key vs

unfoldable pub exploded_fields : Operator → List (Text × Option Text) → List (Option Text)
exploded_fields o [] = []
exploded_fields o ((k, none) ∷ fs) = exploded_fields o fs
exploded_fields o ((k, some v) ∷ fs) = encode_value o v k ∷ exploded_fields o fs

unfoldable pub listed_fields : Operator → List (Text × Option Text) → List (Option Text)
listed_fields o [] = []
listed_fields o ((k, none) ∷ fs) = listed_fields o fs
listed_fields o ((k, some v) ∷ fs) = encode_unreserved k ∷ encode_value o v [] ∷ listed_fields o fs

abbrev pub join_with : Text → Option (List Text) → Option Text
join_with sep none = none
join_with sep (some ts) = some (join sep ts)

abbrev pub comma : Text
comma = b',' ∷ []

abbrev pub empty_text : Option Text
empty_text = some []

-- An array or object that is not exploded: its parts, joined.
abbrev pub joined_values : Operator → Text → List (Option Text) → List (Option Text)
joined_values o key ts =
    if is_key_operator o
    then with_key (encode_unreserved key) (join_with comma (sequence ts)) ∷ []
    else elim ts [ [] ↦ [] | t ∷ more ↦ join_with comma (sequence (t ∷ more)) ∷ [] ]

abbrev pub empty_values : Operator → Text → List (Option Text)
empty_values o key =
    if is_operator o b';'
    then encode_unreserved key ∷ []
    else if is_key_operator o
    then with_key (encode_unreserved key) empty_text ∷ []
    else empty_text ∷ []

abbrev pub values_of : Operator → Text → Modifier → Option Param → List (Option Text)
values_of o key m none = []
values_of o key m (some undefined) = []
values_of o key m (some null) = []
values_of o key m (some (text [])) = empty_values o key
values_of o key m (some (text (c ∷ s))) = encode_value o (shorten m (c ∷ s)) (key_for o key) ∷ []
values_of o key explode (some (array vs)) = array_values o (key_for o key) vs
values_of o key m (some (array vs)) = joined_values o key (array_values o [] vs)
values_of o key explode (some (object fs)) = exploded_fields o fs
values_of o key m (some (object fs)) = joined_values o key (listed_fields o fs)

-- `getValues`
unfoldable pub get_values : Context → Operator → Text → Modifier → List (Option Text)
get_values context o key m = values_of o key m (lookup key context)

-- The name of a variable, and what stands behind it (`:` or `*` first).
abbrev pub cons_name : ℕ → Text × Text → Text × Text
cons_name c p = (c ∷ p.0, p.1)

unfoldable pub name_and_rest : Text → Text × Text
name_and_rest [] = ([], [])
name_and_rest (c ∷ s) =
    let rest = cons_name c (name_and_rest s) in if c == b':' || c == b'*' then ([], c ∷ s) else rest

unfoldable pub digits : ℕ → Text → ℕ
digits n [] = n
digits n (c ∷ s) = let rest = digits (n * 10 + (c - b'0')) s in if is_digit c then rest else n

abbrev pub modifier_of : Text → Modifier
modifier_of [] = whole
modifier_of (c ∷ []) = if c == b'*' then explode else whole
modifier_of (c ∷ (d ∷ s)) =
    if c == b'*' then explode else if is_digit d then prefix (digits 0 (d ∷ s)) else whole

-- One variable of an expression: the list that is pushed, as `join` writes it.
unfoldable pub variable : Context → Operator → Text → Option Text
variable context o v =
    let parts = name_and_rest v in
    join_with comma (sequence (get_values context o parts.0 (modifier_of parts.1)))

unfoldable pub variables : Context → Operator → List Text → List (Option Text)
variables context o [] = []
variables context o (v ∷ vs) = variable context o v ∷ variables context o vs

abbrev pub operators : Text
operators = codes "+#./;?&"

abbrev pub is_in : Text → ℕ → Bool
is_in [] c = false
is_in (d ∷ s) c = d == c || is_in s c

abbrev pub take_operator : Text → Operator × Text
take_operator [] = (none, [])
take_operator (c ∷ s) = if is_in operators c then (some c, s) else (none, c ∷ s)

abbrev pub separator_of : Operator → Text
separator_of none = comma
separator_of (some o) =
    if o == b'?' then b'&' ∷ [] else if o == b'#' || o == b'+' then comma else o ∷ []

-- The operator stands in front, but for `+`.
abbrev pub front_of : Operator → Text
front_of none = []
front_of (some o) = if o == b'+' then [] else o ∷ []

-- The value of `{expression}`.
unfoldable pub expand_expression : Context → Text → Option Text
expand_expression context expression =
    let parts = take_operator expression in
    map_text (λ t. front_of parts.0 ++ t)
      (join_with (separator_of parts.0) (sequence (variables context parts.0 (split b',' parts.1))))

-- The text in braces and texts without braces, as the expression of `replace` finds them.
pub data Lexeme : Type 0 where
  open_brace close_brace : Lexeme
  run : Text → Lexeme

abbrev pub cons_run : ℕ → List Lexeme → List Lexeme
cons_run c (run s ∷ ls) = run (c ∷ s) ∷ ls
cons_run c ls = run (c ∷ []) ∷ ls

unfoldable pub lexemes : Text → List Lexeme
lexemes [] = []
lexemes (c ∷ s) =
    let rest = lexemes s in
    if c == b'{'
    then open_brace ∷ rest
    else if c == b'}'
    then close_brace ∷ rest
    else cons_run c rest

pub data Piece : Type 0 where
  expression literal : Text → Piece
  raw : ℕ → Piece

unfoldable pub pieces : List Lexeme → List Piece
pieces [] = []
pieces (open_brace ∷ (run e ∷ (close_brace ∷ ls))) = expression e ∷ pieces ls
pieces (open_brace ∷ ls) = raw b'{' ∷ pieces ls
pieces (close_brace ∷ ls) = raw b'}' ∷ pieces ls
pieces (run s ∷ ls) = literal s ∷ pieces ls

abbrev pub expand_piece : Context → Piece → Option Text
expand_piece context (expression e) = expand_expression context e
expand_piece context (literal s) = encode_reserved s
expand_piece context (raw c) = some (c ∷ [])

unfoldable pub expand_pieces : Context → List Piece → Option Text
expand_pieces context [] = some []
expand_pieces context (p ∷ ps) = append_texts (expand_piece context p) (expand_pieces context ps)

-- `expand`
unfoldable pub expand : Text → Context → Option Text
expand template context = expand_pieces context (pieces (lexemes template))
