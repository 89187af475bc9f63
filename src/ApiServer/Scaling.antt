-- ===== src/ApiServer/Scaling.antt =====
-- apiserver/pkg/scaling/scaling.go: the number of runners for a queue, and the forced scaling up.
pub mod Output
pub mod Forced
use github_runner_autoscaler.Common.{
  ℕ, ◌+◌, ◌*◌, ◌%◌, ◌≡◌, Bool, true, false, ◌&&◌, Option, none, some, Text, if◌then◌else◌,
}
use github_runner_autoscaler.Common.Int.{ℤ, pos, negsuc, ◌+ℤ◌, ◌≤ℤ◌, ltb_ℤ, eqb_ℤ, wrap64}
use github_runner_autoscaler.ApiServer.World.{World, M, ◌>>=◌, Outside, pure, deref, now, intn}

abbrev pub IsInt32 : ℤ → Type 0
IsInt32 a = (negsuc 2147483647 ≤ℤ a) × (a ≤ℤ pos 2147483647)

-- float64, with the operations that the code uses; `round` is `int32(math.Round(x))`. The laws are
-- what it relies on: a float64 holds each int32 exactly, and a number that lies between two int32
-- is rounded to one between them. `eq x x` fails for NaN only.
pub record Floats : Type 1 where
  pub Float : Type 0
  pub of_int : ℤ → Float
  pub parse_float : Text → Float
  pub lt : Float → Float → Bool
  pub eq : Float → Float → Bool
  pub sub : Float → Float → Float
  pub add : Float → Float → Float
  pub mul : Float → Float → Float
  pub div : Float → Float → Float
  pub power : Float → Float → Float
  pub euler : Float
  pub round : Float → ℤ
  pub lt_of_int : (a b : ℤ) → IsInt32 a → IsInt32 b → lt (of_int a) (of_int b) ≡ ltb_ℤ a b
  pub eq_of_int : (a b : ℤ) → IsInt32 a → IsInt32 b → eq (of_int a) (of_int b) ≡ eqb_ℤ a b
  pub lt_of_eq : (x y z : Float) → eq x y ≡ true → lt x z ≡ lt y z
  pub round_of_int : (a : ℤ) → IsInt32 a → round (of_int a) ≡ a
  pub round_between :
      (x : Float) (a b : ℤ)
      → IsInt32 a
      → IsInt32 b
      → eq x x ≡ true
      → lt x (of_int a) ≡ false
      → lt (of_int b) x ≡ false
      → (a ≤ℤ round x) × (round x ≤ℤ b)

-- `time.Minute` and `time.Hour`
abbrev pub minute : ℕ
minute = 60_000_000_000

abbrev pub hour : ℕ
hour = 60 * minute

-- ScaledActionRunnerSpec of the operator, as far as the server reads it.
pub record Spec : Type 0 where
  pub min_runners : ℤ
  pub max_runners : ℤ
  pub scale_factor : Option Text
  pub force_scale_up_window : Option ℤ
  pub force_scale_up_frequency : Option ℤ
  pub github_token_secret : Text
  pub owner : Text
  pub repo : Text

pub record Scaling (F : Floats) : Type 0 where
  pub min_workers : ℤ
  pub max_workers : ℤ
  pub scale_factor : F.Float
  pub linear : Bool
  pub force_scale_up_window : ℤ
  pub force_scale_up_frequency : ℤ

abbrev or_else : Option ℤ → ℤ → ℤ
or_else none d = d
or_else (some a) d = a

module _ (F : Floats) where
  open F use {Float, of_int, parse_float, lt, eq, sub, add, mul, div, power, euler, round}

  -- `NewScaling`, with the scale factor that its pointer points to.
  unfoldable pub new_scaling : Spec → Text → Scaling F
  new_scaling spec factor = record {
    min_workers = spec.min_runners;
    max_workers = spec.max_runners;
    scale_factor = parse_float factor;
    linear = eq (parse_float factor) (of_int (pos 0));
    force_scale_up_window = or_else spec.force_scale_up_window (pos (20 * minute));
    force_scale_up_frequency = or_else spec.force_scale_up_frequency (pos (20 * 24 * hour));
  }

  unfoldable pub logistic : Float → Float → Float → Float → Float
  logistic c a k x =
      let b = power euler (sub (of_int (pos 0)) k) in
      div c (add (of_int (pos 1)) (mul a (power b x)))

  -- The result before it is bounded.
  unfoldable pub raw_output : Scaling F → ℤ → Float
  unfolding logistic
  raw_output s queue_length =
      if s.linear
      then of_int queue_length
      else logistic (of_int s.max_workers) (of_int s.max_workers) s.scale_factor
          (of_int queue_length)

  unfoldable pub bounded : Scaling F → Float → Float
  bounded s raw =
      let capped = if lt (of_int s.max_workers) raw then of_int s.max_workers else raw in
      if lt capped (of_int s.min_workers) then of_int s.min_workers else capped

  unfoldable pub get_output : Scaling F → ℤ → ℤ
  get_output s queue_length =
      let result = bounded s (raw_output s queue_length) in
      round (
        if ltb_ℤ (pos 0) queue_length
        then (if eq result (of_int (pos 0)) then of_int (pos 1) else result)
        else of_int s.min_workers)

  module _ {S : Type 0} (o : Outside) (s : Scaling F) where
    -- The forced scaling is planned, for a time `next`.
    unfoldable pub planned : ℤ → ℕ → M S (Bool × ℤ)
    planned next rnd_secs = do
      first ← now o
      elim (ltb_ℤ (next +ℤ s.force_scale_up_window) first) [
        | true ↦ (do
          start ← now o
          pure (false, start +ℤ wrap64 (s.force_scale_up_frequency +ℤ pos rnd_secs)))
        | false ↦ (do second ← now o; pure (ltb_ℤ next second, next))
      ]

    unfoldable pub calculate_forced_scale : Option ℤ → M S (Bool × ℤ)
    unfolding planned
    calculate_forced_scale next =
        if eqb_ℤ s.force_scale_up_window (pos 0) then (do t ← deref next; pure (false, t)) else (do
          rnd_secs ← intn o (60 * 60 * 24)
          elim next [
            | none ↦ (do start ← now o; pure (false, start +ℤ pos (1_000_000_000 * rnd_secs)))
            | some t ↦ planned t rnd_secs
          ])
