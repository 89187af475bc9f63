-- ===== src/AddRunner/Encoding.antt =====
-- What add-runner/src/resources.ts takes from the language's library: `Buffer.from(s)` (UTF-8),
-- `toString("base64")`, and a number inside a template string.
pub mod RoundTrip
use github_runner_autoscaler.Common.{
  ℕ, zero, suc, ◌+◌, ◌-◌, ◌*◌, ◌/◌, ◌%◌, Text, codes, Bool, true, false, ◌&&◌, List, [], ◌∷◌, ◌++◌,
  if◌then◌else◌, ◌==◌, leb, ltb, arith,
}

abbrev pub is_high : ℕ → Bool
is_high c = leb 0xd800 c && leb c 0xdbff

abbrev pub is_low : ℕ → Bool
is_low c = leb 0xdc00 c && leb c 0xdfff

-- A surrogate that stands alone becomes U+FFFD.
abbrev pub scalar : ℕ → ℕ
scalar c = if leb 0xd800 c && leb c 0xdfff then 0xfffd else c

abbrev pub pair : ℕ → ℕ → ℕ
pair c d = 0x10000 + (c - 0xd800) * 0x400 + (d - 0xdc00)

unfoldable pub code_points : Text → List ℕ
code_points [] = []
code_points (c ∷ []) = scalar c ∷ []
code_points (c ∷ (d ∷ s)) =
    let paired = pair c d ∷ code_points s in
    let single = scalar c ∷ code_points (d ∷ s) in if is_high c && is_low d then paired else single

unfoldable pub utf8_bytes : ℕ → List ℕ
utf8_bytes c =
    if ltb c 0x80
    then c ∷ []
    else if ltb c 0x800
    then (0xc0 + c / 64) ∷ (0x80 + c % 64) ∷ []
    else if ltb c 0x10000
    then (0xe0 + c / 4096) ∷ (0x80 + c / 64 % 64) ∷ (0x80 + c % 64) ∷ []
    else (0xf0 + c / 262144) ∷ (0x80 + c / 4096 % 64) ∷ (0x80 + c / 64 % 64) ∷ (0x80 + c % 64) ∷ []

unfoldable pub encode_points : List ℕ → List ℕ
encode_points [] = []
encode_points (c ∷ cs) = utf8_bytes c ++ encode_points cs

unfoldable pub utf8 : Text → List ℕ
unfolding code_points utf8_bytes encode_points
utf8 s = encode_points (code_points s)

unfoldable pub digit64 : ℕ → ℕ
digit64 v =
    if ltb v 26
    then b'A' + v
    else if ltb v 52
    then b'a' + (v - 26)
    else if ltb v 62
    then b'0' + (v - 52)
    else if v == 62
    then b'+'
    else b'/'

unfoldable pub base64 : List ℕ → Text
base64 [] = []
base64 (a ∷ []) = digit64 (a / 4) ∷ digit64 (a % 4 * 16) ∷ b'=' ∷ b'=' ∷ []
base64 (a ∷ (b ∷ [])) =
    digit64 (a / 4) ∷ digit64 (a % 4 * 16 + b / 16) ∷ digit64 (b % 16 * 4) ∷ b'=' ∷ []
base64 (a ∷ (b ∷ (c ∷ s))) =
    digit64 (a / 4)
    ∷ digit64 (a % 4 * 16 + b / 16)
    ∷ digit64 (b % 16 * 4 + c / 64)
    ∷ digit64 (c % 64)
    ∷ base64 s

-- `btoa`
unfoldable pub btoa : Text → Text
unfolding utf8 digit64 base64
btoa input = base64 (utf8 input)

decimal_from : ℕ → ℕ → Text
decimal_from zero n = []
decimal_from (suc fuel) n =
    let more = decimal_from fuel (n / 10) ++ ((b'0' + n % 10) ∷ []) in
    if ltb n 10 then (b'0' + n) ∷ [] else more

-- `${n}` for a natural number; a number has fewer digits than `n + 1`.
unfoldable pub decimal : ℕ → Text
unfolding decimal_from
decimal n = decimal_from (suc n) n
