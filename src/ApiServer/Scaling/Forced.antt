-- ===== src/ApiServer/Scaling/Forced.antt =====
-- scaling.go: when scaling is forced, and when the next time is.
use github_runner_autoscaler.Common.{
  ℕ, ◌+◌, ◌%◌, ◌≡◌, ◌≢◌, ◌↔◌, Bool, true, false, none, some, arith, Bool-cases, inl, inr,
}
use github_runner_autoscaler.Common.Int.{
  ℤ, pos, ◌+ℤ◌, ◌≤ℤ◌, ◌<ℤ◌, ltb_ℤ, eqb_ℤ_iff, int_laws, wrap64, wrap64_lem,
}
use github_runner_autoscaler.ApiServer.World.{World, Outside}
use github_runner_autoscaler.ApiServer.Scaling.{Floats, Scaling, calculate_forced_scale}

wrap64_delay :
    (f : ℤ) (n : ℕ)
    → pos 0 ≤ℤ f
    → f ≤ℤ pos 9223372036854689407
    → wrap64 (f +ℤ pos (n % 86400)) ≡ f +ℤ pos (n % 86400)
wrap64_delay f n low high = wrap64_lem (f +ℤ pos (n % 86400)) (omega int_laws) (omega int_laws)

module _ (F : Floats) {S : Type 0} (o : Outside) (s : Scaling F) where
  open s use {force_scale_up_window, force_scale_up_frequency}
  open o use {clock, random}

  -- The world after a planned forced scaling was looked at.
  abbrev looked : World S → World S
  looked w = record w { ticks = w.ticks + 1 + 1; draws = w.draws + 1 }

  -- With a window other than 0 and a planned time the calculation returns, and scaling is forced
  -- exactly if that time is before the second reading of the clock and the first reading is not
  -- after the end of the window.
  pub calculate_forced_scale_iff :
      (w : World S) (next : ℤ)
      → force_scale_up_window ≢ pos 0
      → (forced : Bool) × (t : ℤ) × (w' : World S) × (calculate_forced_scale F o s (some next) w
          ≡ some ((forced, t), w'))
        × ((forced ≡ true)
            ↔ ((next <ℤ clock (w.ticks + 1)) × (clock w.ticks ≤ℤ next +ℤ force_scale_up_window)))
  unfolding calculate_forced_scale
  calculate_forced_scale_iff w next on =
      elim (Bool-cases (ltb_ℤ (next +ℤ force_scale_up_window) (clock w.ticks))) [
        | inl ended ↦ (
          false,
          clock (w.ticks + 1) +ℤ wrap64 (force_scale_up_frequency +ℤ pos (random w.draws % 86400)),
          looked w,
          ground (arith, eqb_ℤ_iff force_scale_up_window (pos 0)),
          ground arith,
        )
        | inr not_ended ↦ (
          ltb_ℤ next (clock (w.ticks + 1)),
          next,
          looked w,
          ground (arith, eqb_ℤ_iff force_scale_up_window (pos 0)),
          ground arith,
        )
      ]

  -- The frequency leaves room for the delay in an int64.
  module _ (on : force_scale_up_window ≢ pos 0) (low : pos 0 ≤ℤ force_scale_up_frequency)
      (high : force_scale_up_frequency ≤ℤ pos 9223372036854689407) where
    ended_lem :
        (w : World S) (next : ℤ)
        → (next +ℤ force_scale_up_window) <ℤ clock w.ticks
        → calculate_forced_scale F o s (some next) w
          ≡ some (
            (
              false,
              clock (w.ticks + 1) +ℤ (force_scale_up_frequency +ℤ pos (random w.draws % 86400)),
            ),
            looked w,
          )
    unfolding calculate_forced_scale
    ended_lem w next ended = ground (
      arith,
      eqb_ℤ_iff force_scale_up_window (pos 0),
      wrap64_delay force_scale_up_frequency (random w.draws) low high,
    )

    -- If the window has ended, the next time is at least the frequency after the second reading of
    -- the clock, and less than 86,400 nanoseconds later than that. The window is not 0, and the
    -- frequency is not negative and leaves room for the delay in an int64.
    pub calculate_forced_scale-delay :
        (w w' : World S) (next t : ℤ) (forced : Bool)
        → (next +ℤ force_scale_up_window) <ℤ clock w.ticks
        → calculate_forced_scale F o s (some next) w ≡ some ((forced, t), w')
        → (clock (w.ticks + 1) +ℤ force_scale_up_frequency ≤ℤ t)
          × (t <ℤ clock (w.ticks + 1) +ℤ force_scale_up_frequency +ℤ pos 86400)
    calculate_forced_scale-delay w w' next t forced ended e =
        let e' : t
            ≡ clock (w.ticks + 1) +ℤ (force_scale_up_frequency +ℤ pos (random w.draws % 86400)) =
          cc (ended_lem w next ended) in
        rw e' (omega int_laws)

    -- After a window has ended and the next time was planned, a calculation for that time does not
    -- force scaling while its second reading of the clock is not later than the frequency after
    -- the planning. The window is not 0, and the frequency is not negative and leaves room for the
    -- delay in an int64.
    pub calculate_forced_scale-rest :
        (w w' v v' : World S) (next t u : ℤ) (forced again : Bool)
        → (next +ℤ force_scale_up_window) <ℤ clock w.ticks
        → calculate_forced_scale F o s (some next) w ≡ some ((forced, t), w')
        → clock (v.ticks + 1) ≤ℤ clock (w.ticks + 1) +ℤ force_scale_up_frequency
        → calculate_forced_scale F o s (some t) v ≡ some ((again, u), v')
        → again ≡ false
    calculate_forced_scale-rest w w' v v' next t u forced again ended e early e' =
        let delay = calculate_forced_scale-delay w w' next t forced ended e in
        let (b, _, _, r, iff) = calculate_forced_scale_iff v t on in
        elim (Bool-cases again) [
          | inr h ↦ h
          | inl h ↦ let hb : b ≡ true = cc in absurd (let k = iff.0 hb in omega int_laws)
        ]

  pub calculate_forced_scale_zero :
      (w : World S) → force_scale_up_window ≡ pos 0 → calculate_forced_scale F o s none w ≡ none
  unfolding calculate_forced_scale
  calculate_forced_scale_zero w e = ground arith
