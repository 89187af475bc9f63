-- ===== src/AddRunner/Encoding/RoundTrip.antt =====
-- Base64 and decimal texts are read back to what they were made of.
use github_runner_autoscaler.Common.{
  ℕ, zero, suc, ◌+◌, ◌-◌, ◌*◌, ◌/◌, ◌%◌, ◌<◌, Text, false, List, [], ◌∷◌, ◌++◌, if◌then◌else◌, ◌==◌,
  arith, ◌≡◌, refl, All, All-append, is_digit, is_upper, is_lower,
}
use github_runner_autoscaler.AddRunner.Encoding.{
  code_points, utf8_bytes, encode_points, utf8, digit64, base64, btoa, decimal_from, decimal,
}

abbrev pub IsByte : ℕ → Type 0
IsByte b = b < 256

value64 : ℕ → ℕ
value64 c =
    if is_upper c
    then c - b'A'
    else if is_lower c
    then c - b'a' + 26
    else if is_digit c
    then c - b'0' + 52
    else if c == b'+'
    then 62
    else 63

-- The standard decoding of padded base64 text.
unfoldable pub decode64 : Text → List ℕ
unfolding value64
decode64 (p ∷ (q ∷ (r ∷ (s ∷ t)))) =
    let a = value64 p * 4 + value64 q / 16 in
    let b = value64 q % 16 * 16 + value64 r / 4 in
    let c = value64 r % 4 * 64 + value64 s in
    if r == b'=' then a ∷ [] else if s == b'=' then a ∷ b ∷ [] else a ∷ b ∷ c ∷ decode64 t
decode64 _ = []

value64-digit64 : (v : ℕ) → v < 64 → value64 (digit64 v) ≡ v
unfolding value64 digit64
value64-digit64 v h = ground arith

digit64_ne_pad : (v : ℕ) → (digit64 v == b'=') ≡ false
unfolding digit64
digit64_ne_pad v = ground arith

pub decode64-base64 : (bytes : List ℕ) → All IsByte bytes → decode64 (base64 bytes) ≡ bytes
unfolding decode64 base64
decode64-base64 [] h = refl
decode64-base64 (a ∷ []) (ha, _) =
    ground (arith, value64-digit64 (a / 4), value64-digit64 (a % 4 * 16))
decode64-base64 (a ∷ (b ∷ [])) (ha, (hb, _)) = ground (
  arith,
  value64-digit64 (a / 4),
  value64-digit64 (a % 4 * 16 + b / 16),
  value64-digit64 (b % 16 * 4),
  digit64_ne_pad (b % 16 * 4),
)
decode64-base64 (a ∷ (b ∷ (c ∷ s))) (ha, (hb, (hc, hs))) = ground (
  arith,
  value64-digit64 (a / 4),
  value64-digit64 (a % 4 * 16 + b / 16),
  value64-digit64 (b % 16 * 4 + c / 64),
  value64-digit64 (c % 64),
  digit64_ne_pad (b % 16 * 4 + c / 64),
  digit64_ne_pad (c % 64),
  decode64-base64 s hs,
)

-- A code unit of JavaScript.
abbrev pub IsUnit16 : ℕ → Type 0
IsUnit16 c = c < 0x10000

pub utf8_bytes-IsByte : (c : ℕ) → c < 0x110000 → All IsByte (utf8_bytes c)
unfolding utf8_bytes
utf8_bytes-IsByte c h = ground arith

pub encode_points-IsByte :
    (cs : List ℕ) → All (λ c. c < 0x110000) cs → All IsByte (encode_points cs)
unfolding encode_points
encode_points-IsByte [] h = tt
encode_points-IsByte (c ∷ cs) (hc, h) =
    All-append IsByte (utf8_bytes c) (encode_points cs) (utf8_bytes-IsByte c hc)
      (encode_points-IsByte cs h)

pub code_points_bound : (s : Text) → All IsUnit16 s → All (λ c. c < 0x110000) (code_points s)
unfolding code_points
code_points_bound [] h = tt
code_points_bound (c ∷ []) h = ground arith
code_points_bound (c ∷ (d ∷ s)) (hc, (hd, h)) =
    ground (arith, code_points_bound s h, code_points_bound (d ∷ s) (hd, h))

pub utf8-IsByte : (s : Text) → All IsUnit16 s → All IsByte (utf8 s)
utf8-IsByte s h = unfold utf8 in encode_points-IsByte (code_points s) (code_points_bound s h)

-- Decoding the base64 text of a text of 16-bit code units by a reference decoder gives its UTF-8
-- bytes.
pub decode64-btoa : (s : Text) → All IsUnit16 s → decode64 (btoa s) ≡ utf8 s
decode64-btoa s h = unfold btoa in decode64-base64 (utf8 s) (utf8-IsByte s h)

-- The number that a decimal text stands for.
unfoldable pub read_decimal : ℕ → Text → ℕ
read_decimal n [] = n
read_decimal n (c ∷ s) = read_decimal (n * 10 + (c - b'0')) s

read_decimal-append :
    (n : ℕ) (s t : Text) → read_decimal n (s ++ t) ≡ read_decimal (read_decimal n s) t
unfolding read_decimal
read_decimal-append n [] t = refl
read_decimal-append n (c ∷ s) t = read_decimal-append (n * 10 + (c - b'0')) s t

read_decimal_digit : (m d : ℕ) → read_decimal m ((b'0' + d) ∷ []) ≡ m * 10 + d
unfolding read_decimal
read_decimal_digit m d = omega arith

read_decimal_from : (fuel n : ℕ) → n < fuel → read_decimal 0 (decimal_from fuel n) ≡ n
unfolding decimal_from
read_decimal_from zero n h = elim h [ ]
read_decimal_from (suc fuel) n h = ground (
  arith,
  read_decimal_from fuel (n / 10),
  read_decimal-append 0 (decimal_from fuel (n / 10)) ((b'0' + n % 10) ∷ []),
  read_decimal_digit (read_decimal 0 (decimal_from fuel (n / 10))) (n % 10),
  read_decimal_digit 0 n,
)

pub read_decimal_lem : (n : ℕ) → read_decimal 0 (decimal n) ≡ n
unfolding decimal
read_decimal_lem n = read_decimal_from (suc n) n (omega arith)
