-- ===== src/GitHub/Template/Laws.antt =====
-- What a URL template expands to (examples/add-runner.js, module 2995).
use github_runner_autoscaler.Common.Dict.{lookup}
use github_runner_autoscaler.Common.{
  ℕ, ◌≡◌, ◌≢◌, refl, ap, sym, arith, Text, false, ◌||◌, List, [], ◌∷◌, ◌++◌, Option, none, some,
  ◌==◌, All, Lacks, split_of_Lacks,
}
use mathlib.Core.Path.{subst}
use github_runner_autoscaler.AddRunner.Encoding.{code_points}
use github_runner_autoscaler.GitHub.Percent.{
  encode_unreserved, encode, is_well_formed, encode_each, encode_marks, map_text,
}
use github_runner_autoscaler.GitHub.Template.{
  comma, join_with, sequence, text, Context, encode_value, whole, get_values, name_and_rest,
  variable, variables, operators, is_in, take_operator, expand_expression, Lexeme, open_brace,
  close_brace, run, cons_run, lexemes, Piece, expression, literal, raw, pieces, expand_pieces,
  expand,
}

-- The text that pieces stand for.
unfoldable pub print : List Piece → Text
print [] = []
print (expression e ∷ ps) = b'{' ∷ e ++ (b'}' ∷ print ps)
print (literal s ∷ ps) = s ++ print ps
print (raw c ∷ ps) = c ∷ print ps

-- A text without braces, and with a character at least.
abbrev pub IsRun : Text → Type 0
IsRun s = (s ≢ []) × All (λ c. (c == b'{' || c == b'}') ≡ false) s

-- Expressions, and literal texts with an expression behind each.
abbrev pub AreRegular : List Piece → Type 0
AreRegular [] = Unit
AreRegular (expression e ∷ ps) = IsRun e × AreRegular ps
AreRegular (literal s ∷ []) = IsRun s
AreRegular (literal s ∷ (expression e ∷ ps)) = IsRun s × (IsRun e × AreRegular ps)
AreRegular (literal s ∷ (literal t ∷ ps)) = ⊥
AreRegular (literal s ∷ (raw c ∷ ps)) = ⊥
AreRegular (raw c ∷ ps) = ⊥

-- The lexemes do not begin with a run.
abbrev EndsRun : List Lexeme → Type 0
EndsRun (run s ∷ ls) = ⊥
EndsRun ls = Unit

cons_run_new : (c : ℕ) (ls : List Lexeme) → EndsRun ls → cons_run c ls ≡ run (c ∷ []) ∷ ls
cons_run_new c [] h = refl
cons_run_new c (open_brace ∷ ls) h = refl
cons_run_new c (close_brace ∷ ls) h = refl
cons_run_new c (run s ∷ ls) h = elim h [ ]

lexemes-run : (s t : Text) → IsRun s → EndsRun (lexemes t) → lexemes (s ++ t) ≡ run s ∷ lexemes t
unfolding lexemes
lexemes-run [] t (h, _) e = absurd (h refl)
lexemes-run (c ∷ []) t (_, (hc, _)) e = ground (arith, hc, cons_run_new c (lexemes t) e)
lexemes-run (c ∷ (d ∷ s)) t (_, (hc, h)) e =
    ground (arith, hc, lexemes-run (d ∷ s) t ((λ p. cc), h) e)

lexemes-expression :
    (e t : Text)
    → IsRun e
    → lexemes (b'{' ∷ e ++ (b'}' ∷ t)) ≡ open_brace ∷ run e ∷ close_brace ∷ lexemes t
unfolding lexemes
lexemes-expression e t h = ap (λ ls. open_brace ∷ ls) (lexemes-run e (b'}' ∷ t) h tt)

-- Reading the text of regular pieces gives the pieces.
pub pieces-print : (ps : List Piece) → AreRegular ps → pieces (lexemes (print ps)) ≡ ps
unfolding print pieces
pieces-print [] h = unfold lexemes in refl
pieces-print (expression e ∷ ps) (he, h) =
    rw (lexemes-expression e (print ps) he, pieces-print ps h)
pieces-print (literal s ∷ []) h = unfold lexemes in rw (lexemes-run s [] h tt)
pieces-print (literal s ∷ (expression e ∷ ps)) (hs, (he, h)) = rw (
  lexemes-run s (b'{' ∷ e ++ (b'}' ∷ print ps)) hs
      (subst EndsRun (sym (lexemes-expression e (print ps) he)) tt),
  lexemes-expression e (print ps) he,
  pieces-print ps h,
)
pieces-print (literal s ∷ (literal t ∷ ps)) h = elim h [ ]
pieces-print (literal s ∷ (raw c ∷ ps)) h = elim h [ ]
pieces-print (raw c ∷ ps) h = elim h [ ]

-- A character of a plain variable name: no operator, and none of `,:*`.
abbrev pub IsVariableUnit : ℕ → Type 0
IsVariableUnit c = ((is_in operators c || c == b',' || c == b':' || c == b'*') ≡ false)

-- A plain variable name.
abbrev pub IsVariable : Text → Type 0
IsVariable n = All IsVariableUnit n

take_operator_lem : (n : Text) → IsVariable n → take_operator n ≡ (none, n)
take_operator_lem [] h = refl
take_operator_lem (c ∷ n) (hc, h) = ground (arith, hc)

name_and_rest_lem : (n : Text) → IsVariable n → name_and_rest n ≡ (n, [])
unfolding name_and_rest
name_and_rest_lem [] h = refl
name_and_rest_lem (c ∷ n) (hc, h) = ground (arith, hc, name_and_rest_lem n h)

IsVariable-Lacks : (n : Text) → IsVariable n → Lacks b',' n
IsVariable-Lacks [] h = tt
IsVariable-Lacks (c ∷ n) (hc, h) = ((λ e. ground (arith, hc, e)), IsVariable-Lacks n h)

encode_nothing : encode_unreserved [] ≡ some []
unfolding encode_unreserved encode is_well_formed code_points encode_each encode_marks
encode_nothing = refl

value_lem :
    (context : Context) (n v : Text)
    → lookup n context ≡ some (text v)
    → get_values context none n whole ≡ encode_unreserved v ∷ []
unfolding get_values
value_lem context n [] h = rw (h, encode_nothing)
value_lem context n (c ∷ v) h = unfold encode_value in rw h

variable_lem :
    (context : Context) (n v : Text)
    → IsVariable n
    → lookup n context ≡ some (text v)
    → variable context none n ≡ encode_unreserved v
unfolding variable
variable_lem context n v h l =
    rw (name_and_rest_lem n h, value_lem context n v l) (one_value (encode_unreserved v))
  where
    one_value : (o : Option Text) → join_with comma (sequence (o ∷ [])) ≡ o
    one_value none = refl
    one_value (some t) = refl

-- `{name}` with a plain name expands to the encoded value of that parameter, if it is a text; a
-- plain name has no operator character and none of `,`, `:` and `*`.
pub expand_expression-variable :
    (context : Context) (n v : Text)
    → IsVariable n
    → lookup n context ≡ some (text v)
    → expand_expression context n ≡ encode_unreserved v
unfolding expand_expression variables
expand_expression-variable context n v h l =
    rw
      (
        take_operator_lem n h,
        split_of_Lacks b',' n (IsVariable-Lacks n h),
        variable_lem context n v h l,
      )
      (one_value (encode_unreserved v))
  where
    one_value : (o : Option Text) → map_text (λ t. t) (join_with comma (sequence (o ∷ []))) ≡ o
    one_value none = refl
    one_value (some t) = refl

-- A template that is written from regular pieces expands piece by piece; pieces are regular if
-- each expression and each literal text is not empty and has no braces, and no literal text stands
-- next to another one.
pub expand-print :
    (context : Context) (ps : List Piece)
    → AreRegular ps
    → expand (print ps) context ≡ expand_pieces context ps
unfolding expand
expand-print context ps h = ap (expand_pieces context) (pieces-print ps h)
