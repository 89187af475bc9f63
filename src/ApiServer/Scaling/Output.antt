-- ===== src/ApiServer/Scaling/Output.antt =====
-- scaling.go: the bounds of the number of runners, and linear scaling.
use github_runner_autoscaler.Common.{
  ◌≡◌, sym, true, false, ◌∙◌, arith, Bool-cases, inl, inr, if◌then◌else◌,
}
use github_runner_autoscaler.Common.Int.{ℤ, pos, ◌≤ℤ◌, ltb_ℤ}
use github_runner_autoscaler.ApiServer.Scaling.{
  Floats, Scaling, IsInt32, raw_output, bounded, get_output,
}

abbrev zero_IsInt32 : IsInt32 (pos 0)
zero_IsInt32 = omega arith

abbrev one_IsInt32 : IsInt32 (pos 1)
one_IsInt32 = omega arith

-- The integer between the two bounds that is nearest to `x`.
abbrev pub nearest : ℤ → ℤ → ℤ → ℤ
nearest low high x = if ltb_ℤ x low then low else if ltb_ℤ high x then high else x

module _ (F : Floats) where
  open F use {Float, of_int, lt, eq, round}

  -- `x` is a number between two int32.
  abbrev Between : ℤ → ℤ → Float → Type 0
  Between a b x = (eq x x ≡ true) × (lt x (of_int a) ≡ false) × (lt (of_int b) x ≡ false)

  of_int-Between :
      (a b c : ℤ) → IsInt32 a → IsInt32 b → IsInt32 c → a ≤ℤ c → c ≤ℤ b → Between a b (of_int c)
  of_int-Between a b c ha hb hc l r = (
    F.eq_of_int c c hc hc ∙ ground arith,
    F.lt_of_int c a hc ha ∙ ground arith,
    F.lt_of_int b c hb hc ∙ ground arith,
  )

  module _ (s : Scaling F) (hmin : IsInt32 s.min_workers) (hmax : IsInt32 s.max_workers)
      (ordered : s.min_workers ≤ℤ s.max_workers) where
    abbrev InRange : Float → Type 0
    InRange = Between s.min_workers s.max_workers

    bounded-Between : (raw : Float) → eq raw raw ≡ true → InRange (bounded F s raw)
    unfolding bounded
    bounded-Between raw number = ground (
      arith,
      of_int-Between s.min_workers s.max_workers s.min_workers hmin hmax hmin,
      of_int-Between s.min_workers s.max_workers s.max_workers hmin hmax hmax,
    )

    -- A result of zero in the range leaves room for the one runner that takes its place.
    zero_le : (x : Float) → InRange x → eq x (of_int (pos 0)) ≡ true → s.min_workers ≤ℤ pos 0
    zero_le x (_, above, _) e =
        let h : ltb_ℤ (pos 0) s.min_workers ≡ false =
          sym (F.lt_of_int (pos 0) s.min_workers zero_IsInt32 hmin)
          ∙ sym (F.lt_of_eq x (of_int (pos 0)) (of_int s.min_workers) e)
          ∙ above in
        ground arith

    busy-Between :
        (x : Float)
        → pos 1 ≤ℤ s.max_workers
        → InRange x
        → InRange (if eq x (of_int (pos 0)) then of_int (pos 1) else x)
    busy-Between x one h = elim (Bool-cases (eq x (of_int (pos 0)))) [
      | inr e ↦ rw e h
      | inl e ↦ rw e (
          of_int-Between s.min_workers s.max_workers (pos 1) hmin hmax one_IsInt32
            (let z : s.min_workers ≤ℤ pos 0 = zero_le x h e in omega arith) one)
    ]

    -- With a number as the unbounded result, the number of runners lies between the minimum and the maximum.
    pub get_output_bounds :
        (queue_length : ℤ)
        → pos 1 ≤ℤ s.max_workers
        → eq (raw_output F s queue_length) (raw_output F s queue_length) ≡ true
        → let out = get_output F s queue_length in (s.min_workers ≤ℤ out) × (out ≤ℤ s.max_workers)
    unfolding get_output
    get_output_bounds q one number = elim (Bool-cases (ltb_ℤ (pos 0) q)) [
      | inr idle ↦ rw (idle, get_output, F.round_of_int s.min_workers hmin) (omega arith)
      | inl busy ↦
          (let h =
              busy-Between (bounded F s (raw_output F s q)) one
                (bounded-Between (raw_output F s q) number) in
            rw (busy, get_output)
              (F.round_between _ s.min_workers s.max_workers hmin hmax h.0 h.1 h.2))
    ]

    -- With linear scaling, the number of runners for a queue with jobs is the integer between the
    -- minimum and the maximum that is nearest to its length, and for another queue the minimum.
    -- All are int32, the minimum is not above the maximum, and the maximum is at least 1.
    pub get_output-linear :
        (queue_length : ℤ)
        → IsInt32 queue_length
        → s.linear ≡ true
        → pos 1 ≤ℤ s.max_workers
        → get_output F s queue_length ≡ (
            if ltb_ℤ (pos 0) queue_length
            then nearest s.min_workers s.max_workers queue_length
            else s.min_workers)
    unfolding get_output raw_output bounded
    get_output-linear q hq is_linear one = ground (
      arith,
      F.lt_of_int s.max_workers q hmax hq,
      F.lt_of_int q s.min_workers hq hmin,
      F.lt_of_int s.max_workers s.min_workers hmax hmin,
      F.eq_of_int s.max_workers (pos 0) hmax zero_IsInt32,
      F.eq_of_int s.min_workers (pos 0) hmin zero_IsInt32,
      F.eq_of_int q (pos 0) hq zero_IsInt32,
      F.round_of_int s.min_workers hmin,
      F.round_of_int s.max_workers hmax,
      F.round_of_int q hq,
    )

    -- A longer queue never gives fewer runners.
    pub get_output_mono :
        (q r : ℤ)
        → IsInt32 q
        → IsInt32 r
        → s.linear ≡ true
        → pos 1 ≤ℤ s.max_workers
        → q ≤ℤ r
        → get_output F s q ≤ℤ get_output F s r
    get_output_mono q r hq hr is_linear one le =
        rw (get_output-linear q hq is_linear one, get_output-linear r hr is_linear one)
          (ground arith)
