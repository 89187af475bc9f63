-- ===== src/AddRunner/Tests/Runs.antt =====
-- Runs of the command on a small configuration (add-runner/src).
use github_runner_autoscaler.Common.{◌≡◌, refl, Text, codes, List, [], ◌∷◌, none, Result, ok}
use github_runner_autoscaler.AddRunner.Resources.{RunnerCreds}
use github_runner_autoscaler.AddRunner.Runner.{Failure, run_failed, World, add_runner}
use github_runner_autoscaler.AddRunner.Runner.Laws.{options_in, add_runner_dirs}
use github_runner_autoscaler.AddRunner.Pipeline.{register_from, target_of, main}
use github_runner_autoscaler.AddRunner.Pipeline.Registration.{
  IsRegistered, StopsAfter, register_from_ok, register_from_err, register_from_total,
}
use github_runner_autoscaler.AddRunner.Pipeline.Output.{IsDone, main-IsDone, main_total}
use github_runner_autoscaler.AddRunner.Tests.{
  at_paths, parsed, accepted, host, bad_host, github, world, stringify, registers, parsed-accepted,
}

abbrev registered_one : Result Failure RunnerCreds × World
registered_one =
    add_runner host (codes "REG") (codes "devjoes") (codes "demo") (codes "ci-0") none world

add_runner_dirs_example :
    (registered_one.1.open_dirs ≡ [])
    × (registered_one.1.runs
        ≡ options_in host (codes "REG") (codes "devjoes") (codes "demo") (codes "ci-0") none world
          ∷ [])
    × (registered_one.1.made ≡ 1)
add_runner_dirs_example =
    add_runner_dirs host (codes "REG") (codes "devjoes") (codes "demo") (codes "ci-0") none world

abbrev registration : List RunnerCreds
registration = (register_from_total host (codes "REG") accepted registers 0 2 world).0

register_from_ok_example :
    IsRegistered host
      (codes "REG")
      accepted
      0
      2
      world
      registration
      (register_from host (codes "REG") accepted 0 2 world).1
register_from_ok_example =
    register_from_ok host (codes "REG") accepted 0 2 world registration
      (register_from_total host (codes "REG") accepted registers 0 2 world).1

register_from_err_example :
    StopsAfter bad_host
      (codes "REG")
      accepted
      0
      2
      world
      run_failed
      (register_from bad_host (codes "REG") accepted 0 2 world).1
unfolding register_from add_runner
register_from_err_example =
    register_from_err bad_host (codes "REG") accepted 0 2 world run_failed refl

abbrev written : List Text
written =
    (main_total at_paths github host stringify parsed accepted world (codes "REG") parsed-accepted
      refl refl registers).0

main_total_example :
    (ts : List Text) × ((main at_paths github host stringify parsed world).0
      ≡ ok (target_of (codes "out.yml"), ts))
main_total_example =
    main_total at_paths github host stringify parsed accepted world (codes "REG") parsed-accepted
      refl refl registers

main-IsDone_example :
    IsDone at_paths github host stringify parsed world
      (target_of (codes "out.yml"))
      written
      (main at_paths github host stringify parsed world).1
main-IsDone_example =
    main-IsDone at_paths github host stringify parsed world (target_of (codes "out.yml")) written
      (main_total at_paths github host stringify parsed accepted world (codes "REG") parsed-accepted
        refl refl registers).1
