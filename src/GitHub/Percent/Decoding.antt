-- ===== src/GitHub/Percent/Decoding.antt =====
-- Reading back what `encodeUnreserved` writes (examples/add-runner.js, module 2995).
use github_runner_autoscaler.Common.{
  ℕ, ◌≡◌, ◌<◌, ◌+◌, ◌-◌, ◌*◌, ◌/◌, ◌%◌, refl, ap, sym, ◌∙◌, arith, Text, is_digit, true, false,
  List, [], ◌∷◌, ◌++◌, some, if◌then◌else◌, ◌==◌, All, Bool-cases, inl, inr,
}
use mathlib.Core.Path.{subst}
use github_runner_autoscaler.AddRunner.Encoding.{code_points, utf8_bytes, encode_points, utf8}
use github_runner_autoscaler.AddRunner.Encoding.RoundTrip.{
  IsUnit16, IsByte, utf8_bytes-IsByte, code_points_bound,
}
use github_runner_autoscaler.GitHub.Percent.{
  hex_digit, percents, encode_point, encode_each, is_unreserved, encode_unreserved,
}
use github_runner_autoscaler.GitHub.Percent.Laws.{
  kept_point, escaped_point, ascii, unreserved_ascii, encode-some, encode_unreserved_lem,
}

-- The value of a hexadecimal digit.
abbrev hex_value : ℕ → ℕ
hex_value c = if is_digit c then c - b'0' else c - b'A' + 10

-- The bytes that a percent-encoded text stands for.
unfoldable pub decode_percents : Text → List ℕ
decode_percents [] = []
decode_percents (c ∷ []) = c ∷ []
decode_percents (c ∷ (d ∷ [])) = c ∷ d ∷ []
decode_percents (c ∷ (d ∷ (e ∷ s))) =
    let behind = decode_percents s in
    let next = decode_percents (d ∷ e ∷ s) in
    if c == b'%' then (hex_value d * 16 + hex_value e) ∷ behind else c ∷ next

decode_kept :
    (c : ℕ) (t : Text) → (c == b'%') ≡ false → decode_percents (c ∷ t) ≡ c ∷ decode_percents t
unfolding decode_percents
decode_kept c [] h = refl
decode_kept c (d ∷ []) h = refl
decode_kept c (d ∷ (e ∷ s)) h = rw h

hex_value_lem : (n : ℕ) → n < 16 → hex_value (hex_digit n) ≡ n
hex_value_lem n h = ground arith

decode-percents :
    (bs : List ℕ) (t : Text)
    → All IsByte bs
    → decode_percents (percents bs ++ t) ≡ bs ++ decode_percents t
unfolding decode_percents percents
decode-percents [] t h = refl
decode-percents (b ∷ bs) t (hb, h) =
    let high = hex_value_lem (b / 16) (omega arith) in
    let low = hex_value_lem (b % 16) (omega arith) in
    let whole : b / 16 * 16 + b % 16 ≡ b = omega arith in
    rw (high, low, whole, decode-percents bs t h)

decode-point :
    (c : ℕ) (t : Text)
    → c < 0x110000
    → decode_percents (encode_point is_unreserved c ++ t) ≡ utf8_bytes c ++ decode_percents t
decode-point c t h = elim (Bool-cases (is_unreserved c)) [
  | inl e ↦
      ap (λ p. decode_percents (p ++ t)) (kept_point is_unreserved c e)
      ∙ decode_kept c t (no_percent e)
      ∙ sym (ap (λ bs. bs ++ decode_percents t) (ascii c (unreserved_ascii c e)))
  | inr e ↦
      ap (λ p. decode_percents (p ++ t)) (escaped_point is_unreserved c e)
      ∙ decode-percents (utf8_bytes c) t (utf8_bytes-IsByte c h)
]
  where
    no_percent : is_unreserved c ≡ true → (c == b'%') ≡ false
    no_percent e = ground arith

decode-each :
    (cs : List ℕ)
    → All (λ c. c < 0x110000) cs
    → decode_percents (encode_each is_unreserved cs) ≡ encode_points cs
unfolding encode_each encode_points
decode-each [] h = unfold decode_percents in refl
decode-each (c ∷ cs) (hc, h) =
    decode-point c (encode_each is_unreserved cs) hc
    ∙ ap (λ bs. utf8_bytes c ++ bs) (decode-each cs h)

-- Percent-decoding what encodeUnreserved returns for a text of 16-bit code units gives the UTF-8
-- bytes of the text.
pub decode-encode_unreserved :
    (s t : Text) → All IsUnit16 s → encode_unreserved s ≡ some t → decode_percents t ≡ utf8 s
unfolding utf8
decode-encode_unreserved s t u h =
    subst (λ r. decode_percents r ≡ utf8 s)
      (encode-some is_unreserved s t (sym (encode_unreserved_lem s u) ∙ h))
      (decode-each (code_points s) (code_points_bound s u))
