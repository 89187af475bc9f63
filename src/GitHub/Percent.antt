-- ===== src/GitHub/Percent.antt =====
-- Percent encoding (examples/add-runner.js, module 2995, @octokit/endpoint): encodeURIComponent and
-- encodeURI of the language, and what the module makes of them. Both throw on a surrogate that
-- stands alone: `none`.
pub mod Laws
pub mod Decoding
use github_runner_autoscaler.Common.{
  ℕ, ◌+◌, ◌-◌, ◌/◌, ◌%◌, Text, codes, is_digit, is_lower, is_upper, Bool, true, false, not, ◌&&◌,
  ◌||◌, List, [], ◌∷◌, ◌++◌, Option, none, some, if◌then◌else◌, ◌==◌, leb, ltb,
}
use github_runner_autoscaler.AddRunner.Encoding.{is_high, is_low, code_points, utf8_bytes}
use github_runner_autoscaler.CommandLine.Syntax.{is_some}

-- No surrogate stands alone.
unfoldable pub is_well_formed : Text → Bool
is_well_formed [] = true
is_well_formed (c ∷ []) = not (is_high c || is_low c)
is_well_formed (c ∷ (d ∷ s)) =
    let paired = is_well_formed s in
    let single = is_well_formed (d ∷ s) in
    if is_high c && is_low d then paired else not (is_high c || is_low c) && single

-- An upper-case hexadecimal digit.
abbrev pub hex_digit : ℕ → ℕ
hex_digit n = if ltb n 10 then b'0' + n else b'A' + (n - 10)

unfoldable pub percents : List ℕ → Text
percents [] = []
percents (b ∷ bs) = b'%' ∷ hex_digit (b / 16) ∷ hex_digit (b % 16) ∷ percents bs

-- The characters that `keep` holds stay; others are written as their UTF-8 bytes.
abbrev pub encode_point : (ℕ → Bool) → ℕ → Text
encode_point keep c = if keep c then c ∷ [] else percents (utf8_bytes c)

unfoldable pub encode_each : (ℕ → Bool) → List ℕ → Text
encode_each keep [] = []
encode_each keep (c ∷ cs) = encode_point keep c ++ encode_each keep cs

unfoldable pub encode : (ℕ → Bool) → Text → Option Text
encode keep s = if is_well_formed s then some (encode_each keep (code_points s)) else none

abbrev pub is_alphanumeric : ℕ → Bool
is_alphanumeric c = is_lower c || is_upper c || is_digit c

-- `!'()*`
abbrev pub is_mark : ℕ → Bool
is_mark c = c == b'!' || c == 39 || c == b'(' || c == b')' || c == b'*'

-- What is never encoded but for the marks.
abbrev pub is_unreserved : ℕ → Bool
is_unreserved c = is_alphanumeric c || c == b'-' || c == b'_' || c == b'.' || c == b'~'

abbrev pub is_component : ℕ → Bool
is_component c = is_unreserved c || is_mark c

-- `;,/?:@&=+$#`
abbrev pub is_reserved : ℕ → Bool
is_reserved c =
    c == b';'
    || c == b','
    || c == b'/'
    || c == b'?'
    || c == b':'
    || c == b'@'
    || c == b'&'
    || c == b'='
    || c == b'+'
    || c == b'$'
    || c == b'#'

abbrev pub is_uri : ℕ → Bool
is_uri c = is_component c || is_reserved c

abbrev pub encode_uri_component : Text → Option Text
encode_uri_component s = encode is_component s

abbrev pub encode_uri : Text → Option Text
encode_uri s = encode is_uri s

-- `replace(/[!'()*]/g, …)`
unfoldable pub encode_marks : Text → Text
encode_marks [] = []
encode_marks (c ∷ s) = (if is_mark c then percents (c ∷ []) else c ∷ []) ++ encode_marks s

abbrev pub map_text : (Text → Text) → Option Text → Option Text
map_text f none = none
map_text f (some s) = some (f s)

-- `encodeUnreserved`
unfoldable pub encode_unreserved : Text → Option Text
encode_unreserved s = map_text encode_marks (encode_uri_component s)

abbrev pub is_hex : ℕ → Bool
is_hex c = is_digit c || (leb b'a' c && leb c b'f') || (leb b'A' c && leb c b'F')

-- `replace(/%5B/g, "[").replace(/%5D/g, "]")`
unfoldable pub restore_brackets : Text → Text
restore_brackets [] = []
restore_brackets (c ∷ []) = c ∷ []
restore_brackets (c ∷ (d ∷ [])) = c ∷ d ∷ []
restore_brackets (c ∷ (d ∷ (e ∷ s))) =
    let behind = restore_brackets s in
    let next = restore_brackets (d ∷ e ∷ s) in
    if c == b'%' && d == b'5' && e == b'B'
    then b'[' ∷ behind
    else if c == b'%' && d == b'5' && e == b'D'
    then b']' ∷ behind
    else c ∷ next

-- The parts of `str.split(/(%[0-9A-Fa-f]{2})/g)`: a text between, or an escape.
unfoldable pub split_escapes : Text → List Text
split_escapes [] = [] ∷ []
split_escapes (c ∷ []) = (c ∷ []) ∷ []
split_escapes (c ∷ (d ∷ [])) = (c ∷ d ∷ []) ∷ []
split_escapes (c ∷ (d ∷ (e ∷ s))) =
    let behind = split_escapes s in
    let next = split_escapes (d ∷ e ∷ s) in
    if c == b'%' && is_hex d && is_hex e then [] ∷ (c ∷ d ∷ e ∷ []) ∷ behind else first c next
  where
    first : ℕ → List Text → List Text
    first u [] = (u ∷ []) ∷ []
    first u (p ∷ ps) = (u ∷ p) ∷ ps

-- `/%[0-9A-Fa-f]/.test(part)`
unfoldable pub has_escape : Text → Bool
has_escape [] = false
has_escape (c ∷ []) = false
has_escape (c ∷ (d ∷ s)) = (c == b'%' && is_hex d) || has_escape (d ∷ s)

abbrev pub encode_part : Text → Option Text
encode_part part =
    if has_escape part then some part else map_text restore_brackets (encode_uri part)

abbrev pub append_texts : Option Text → Option Text → Option Text
append_texts (some s) (some t) = some (s ++ t)
append_texts s t = none

unfoldable pub encode_parts : List Text → Option Text
encode_parts [] = some []
encode_parts (p ∷ ps) = append_texts (encode_part p) (encode_parts ps)

-- `encodeReserved`
unfoldable pub encode_reserved : Text → Option Text
encode_reserved s = encode_parts (split_escapes s)
