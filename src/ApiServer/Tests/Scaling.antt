-- ===== src/ApiServer/Tests/Scaling.antt =====
-- Scaling: witnesses and tests.
use github_runner_autoscaler.Common.{
  ◌≡◌, ◌↔◌, ◌+◌, refl, if◌then◌else◌, Bool, true, false, some, [], arith,
}
use github_runner_autoscaler.Common.Int.{ℤ, pos, ◌+ℤ◌, ◌≤ℤ◌, ◌<ℤ◌, ltb_ℤ, wrap64, int_laws}
use github_runner_autoscaler.ApiServer.World.{World}
use github_runner_autoscaler.ApiServer.Scaling.{
  get_output, raw_output, bounded, calculate_forced_scale,
}
use github_runner_autoscaler.ApiServer.Scaling.Output.{get_output-linear, nearest}
use github_runner_autoscaler.ApiServer.Scaling.Forced.{
  calculate_forced_scale_iff, calculate_forced_scale-delay, calculate_forced_scale-rest,
}
use github_runner_autoscaler.ApiServer.State.{Memory}
use github_runner_autoscaler.ApiServer.Tests.Data.{whole, linear, outside, world_of}

abbrev blank : World Memory
blank = world_of (record { client_state_data = []; workflow_info = [] })

get_output-linear_example :
    get_output whole linear (pos 3)
    ≡ (if ltb_ℤ (pos 0) (pos 3) then nearest (pos 1) (pos 4) (pos 3) else pos 1)
get_output-linear_example =
    get_output-linear whole linear (omega arith) (omega arith) (omega arith) (pos 3) (omega arith)
      refl (omega arith)

get_output_runs : get_output whole linear (pos 9) ≡ pos 4
unfolding get_output raw_output bounded
get_output_runs = refl

calculate_forced_scale_iff_example :
    (forced : Bool) × (t : ℤ) × (w' : World Memory) × (calculate_forced_scale whole outside linear
        (some (pos 99900))
        blank
      ≡ some ((forced, t), w'))
    × ((forced ≡ true)
        ↔ ((pos 99900 <ℤ outside.clock (0 + 1)) × (outside.clock 0 ≤ℤ pos 99900 +ℤ pos 1200)))
calculate_forced_scale_iff_example =
    calculate_forced_scale_iff whole outside linear blank (pos 99900) (λ e. cc)

-- The window from 900 on has ended.
abbrev ended : World Memory
ended = record blank { ticks = 2; draws = 1 }

abbrev next_time : ℤ
next_time = pos 100100 +ℤ wrap64 (pos 50000 +ℤ pos 0)

ended_runs :
    calculate_forced_scale whole outside linear (some (pos 900)) blank
    ≡ some ((false, next_time), ended)
unfolding calculate_forced_scale wrap64 ◌+ℤ◌
ended_runs = refl

calculate_forced_scale-delay_example :
    (outside.clock (0 + 1) +ℤ pos 50000 ≤ℤ next_time)
    × (next_time <ℤ outside.clock (0 + 1) +ℤ pos 50000 +ℤ pos 86400)
calculate_forced_scale-delay_example =
    calculate_forced_scale-delay whole outside linear (λ e. cc) (omega arith) (omega arith) blank
      ended (pos 900) next_time false (omega int_laws) ended_runs

-- A later query, while the frequency is not over.
abbrev later : World Memory
later = record ended { ticks = 4; draws = 2 }

later_runs :
    calculate_forced_scale whole outside linear (some next_time) ended
    ≡ some ((false, next_time), later)
unfolding calculate_forced_scale wrap64 ◌+ℤ◌
later_runs = refl

calculate_forced_scale-rest_example : ◌≡◌ {A = Bool} false false
calculate_forced_scale-rest_example =
    calculate_forced_scale-rest whole outside linear (λ e. cc) (omega arith) (omega arith) blank
      ended ended later (pos 900) next_time next_time false false (omega int_laws) ended_runs
      (omega int_laws) later_runs
