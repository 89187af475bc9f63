-- ===== src/GitHub/Percent/Laws.antt =====
-- What `encodeUnreserved` writes (examples/add-runner.js, module 2995): safe characters, from which
-- the UTF-8 bytes of the text can be read back.
use github_runner_autoscaler.Common.{
  ℕ, ◌≡◌, ◌<◌, ◌/◌, ◌%◌, refl, ap, sym, ◌∙◌, arith, Text, Bool, true, false, ◌||◌, List, [], ◌∷◌,
  ◌++◌, append_assoc, some, if◌then◌else◌, ◌==◌, All, All-append, Bool-cases, inl, inr,
}
use mathlib.Core.Path.{subst}
use github_runner_autoscaler.AddRunner.Encoding.{code_points, utf8_bytes}
use github_runner_autoscaler.AddRunner.Encoding.RoundTrip.{
  IsUnit16, IsByte, utf8_bytes-IsByte, code_points_bound,
}
use github_runner_autoscaler.GitHub.Percent.{
  is_well_formed, hex_digit, percents, encode_point, encode_each, encode, is_mark, is_unreserved,
  is_component, encode_marks, encode_unreserved,
}

encode_marks-append : (s t : Text) → encode_marks (s ++ t) ≡ encode_marks s ++ encode_marks t
unfolding encode_marks
encode_marks-append [] t = refl
encode_marks-append (c ∷ s) t = rw (encode_marks-append s t) (
    sym (
      append_assoc (if is_mark c then percents (c ∷ []) else c ∷ []) (encode_marks s)
        (encode_marks t)))

hex_digit-no_mark : (n : ℕ) → n < 16 → is_mark (hex_digit n) ≡ false
hex_digit-no_mark n h = ground arith

encode_marks-percents : (bs : List ℕ) → All IsByte bs → encode_marks (percents bs) ≡ percents bs
unfolding encode_marks percents
encode_marks-percents [] h = refl
encode_marks-percents (b ∷ bs) (hb, h) = rw (
  hex_digit-no_mark (b / 16) (omega arith),
  hex_digit-no_mark (b % 16) (omega arith),
  encode_marks-percents bs h,
)

pub ascii : (c : ℕ) → c < 0x80 → utf8_bytes c ≡ c ∷ []
unfolding utf8_bytes
ascii c h = ground (arith, h)

pub kept_point : (keep : ℕ → Bool) (c : ℕ) → keep c ≡ true → encode_point keep c ≡ c ∷ []
kept_point keep c h = rw h

pub escaped_point :
    (keep : ℕ → Bool) (c : ℕ) → keep c ≡ false → encode_point keep c ≡ percents (utf8_bytes c)
escaped_point keep c h = rw h

kept_marks : (c : ℕ) → is_mark c ≡ false → encode_marks (c ∷ []) ≡ c ∷ []
unfolding encode_marks
kept_marks c h = rw h

escaped_mark : (c : ℕ) → is_mark c ≡ true → encode_marks (c ∷ []) ≡ percents (c ∷ [])
unfolding encode_marks percents
escaped_mark c h = rw h

unreserved_no_mark : (c : ℕ) → is_unreserved c ≡ true → is_mark c ≡ false
unreserved_no_mark c h = ground arith

component_of_unreserved : (c : ℕ) → is_unreserved c ≡ true → is_component c ≡ true
component_of_unreserved c h = ground arith

component_of_mark : (c : ℕ) → is_mark c ≡ true → is_component c ≡ true
component_of_mark c h = ground arith

no_component : (c : ℕ) → is_unreserved c ≡ false → is_mark c ≡ false → is_component c ≡ false
no_component c h k = ground arith

mark_ascii : (c : ℕ) → is_mark c ≡ true → c < 0x80
mark_ascii c h = ground arith

pub unreserved_ascii : (c : ℕ) → is_unreserved c ≡ true → c < 0x80
unreserved_ascii c h = ground arith

mark_point :
    (c : ℕ)
    → c < 0x110000
    → encode_marks (encode_point is_component c) ≡ encode_point is_unreserved c
mark_point c h = elim (Bool-cases (is_unreserved c)) [
  | inl e ↦
      ap encode_marks (kept_point is_component c (component_of_unreserved c e))
      ∙ kept_marks c (unreserved_no_mark c e)
      ∙ sym (kept_point is_unreserved c e)
  | inr e ↦ elim (Bool-cases (is_mark c)) [
    | inl m ↦
        ap encode_marks (kept_point is_component c (component_of_mark c m))
        ∙ escaped_mark c m
        ∙ sym (escaped_point is_unreserved c e ∙ ap percents (ascii c (mark_ascii c m)))
    | inr m ↦
        ap encode_marks (escaped_point is_component c (no_component c e m))
        ∙ encode_marks-percents (utf8_bytes c) (utf8_bytes-IsByte c h)
        ∙ sym (escaped_point is_unreserved c e)
  ]
]

encode_marks-encode_each :
    (cs : List ℕ)
    → All (λ c. c < 0x110000) cs
    → encode_marks (encode_each is_component cs) ≡ encode_each is_unreserved cs
unfolding encode_each
encode_marks-encode_each [] h = unfold encode_marks in refl
encode_marks-encode_each (c ∷ cs) (hc, h) =
    encode_marks-append (encode_point is_component c) (encode_each is_component cs)
    ∙ rw (mark_point c hc, encode_marks-encode_each cs h)

-- Both passes of `encodeUnreserved` together: letters, digits and `-._~` stay, and all else is written
-- as its UTF-8 bytes.
pub encode_unreserved_lem :
    (s : Text) → All IsUnit16 s → encode_unreserved s ≡ encode is_unreserved s
unfolding encode_unreserved encode
encode_unreserved_lem s h = elim (Bool-cases (is_well_formed s)) [
  | inl e ↦ rw e (ap some (encode_marks-encode_each (code_points s) (code_points_bound s h)))
  | inr e ↦ rw e
]

-- A letter, a digit, one of `-._~`, or a percent sign.
abbrev pub IsSafe : ℕ → Type 0
IsSafe c = (is_unreserved c || c == b'%') ≡ true

hex_digit-IsSafe : (n : ℕ) → n < 16 → IsSafe (hex_digit n)
hex_digit-IsSafe n h = ground arith

percents-IsSafe : (bs : List ℕ) → All IsByte bs → All IsSafe (percents bs)
unfolding percents
percents-IsSafe [] h = tt
percents-IsSafe (b ∷ bs) (hb, h) = (
  refl,
  (
    hex_digit-IsSafe (b / 16) (omega arith),
    (hex_digit-IsSafe (b % 16) (omega arith), percents-IsSafe bs h),
  ),
)

point-IsSafe : (c : ℕ) → c < 0x110000 → All IsSafe (encode_point is_unreserved c)
point-IsSafe c h = elim (Bool-cases (is_unreserved c)) [
  | inl e ↦ subst (All IsSafe) (sym (kept_point is_unreserved c e)) ((ground (arith, e)), tt)
  | inr e ↦
      subst (All IsSafe) (sym (escaped_point is_unreserved c e))
        (percents-IsSafe (utf8_bytes c) (utf8_bytes-IsByte c h))
]

each-IsSafe : (cs : List ℕ) → All (λ c. c < 0x110000) cs → All IsSafe (encode_each is_unreserved cs)
unfolding encode_each
each-IsSafe [] h = tt
each-IsSafe (c ∷ cs) (hc, h) =
    All-append IsSafe (encode_point is_unreserved c) (encode_each is_unreserved cs)
      (point-IsSafe c hc) (each-IsSafe cs h)

pub encode-some :
    (keep : ℕ → Bool) (s t : Text) → encode keep s ≡ some t → encode_each keep (code_points s) ≡ t
unfolding encode
encode-some keep s t h = ground (arith, h)

-- What `encodeUnreserved` returns has letters, digits, `-._~` and percent signs alone.
pub encode_unreserved-IsSafe :
    (s t : Text) → All IsUnit16 s → encode_unreserved s ≡ some t → All IsSafe t
encode_unreserved-IsSafe s t u h =
    subst (All IsSafe) (encode-some is_unreserved s t (sym (encode_unreserved_lem s u) ∙ h))
      (each-IsSafe (code_points s) (code_points_bound s u))
