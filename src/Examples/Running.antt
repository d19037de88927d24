-- ===== src/Examples/Running.antt =====
-- Runs of the two runners on a small operating system: its clock shows milliseconds, and each child
-- ends by itself at a given time.
use problem_verifier.Prelude.{
  ℕ, zero, suc, ◌+◌, ◌-◌, ◌≤◌, ◌<◌, Bool, true, false, Option, none, some, List, [], ◌∷◌, Str,
  codes, ◌≡◌, refl, ◌⊎◌, inl, inr, arith, if◌then◌else◌, leb, pos, negsuc, ap,
}
use problem_verifier.Prelude.Result.{ok, err, os_error}
use problem_verifier.Json.{Json}
use problem_verifier.Runtime.Thousandths.{Number, not_a_number, infinite, milli}
use problem_verifier.Processes.{
  Child, the_solution, the_validator, Event, started, reaped, killed, Status, exited, signaled,
  Usage, Kernel, System,
}
use problem_verifier.Processes.Clock.{Clock}
use problem_verifier.Runner
use problem_verifier.Runner.{result_json}
use problem_verifier.Runner.History.{IsMeasured, main-IsMeasured}
use problem_verifier.Runner.Progress.{main_ends}
use problem_verifier.PairRunner
use problem_verifier.PairRunner.{pair_json}
use problem_verifier.PairRunner.Tally.{times}
use problem_verifier.PairRunner.History.{at_first, IsPairReport, main-IsPairReport}
use problem_verifier.PairRunner.Blame.{main-blame}
use problem_verifier.PairRunner.Protocol.{main-Lives}
use problem_verifier.Processes.Life.{Life, Lives, gone}
use problem_verifier.PairRunner.Progress.{main_ends_pair}
use problem_verifier.Interactive.{PairRun, read_pair_run, classify_interactive}
use problem_verifier.Verdicts.{judge_error}
use problem_verifier.Runtime.Milli.{MilliRuntime-IsLawful}
use problem_verifier.Examples.Fixtures.{R, no_json, two_seconds}

abbrev usage : Usage R
usage = record { utime = milli 4; stime = milli 1; maxrss = 900 }

abbrev milliseconds_of : Number → ℕ
milliseconds_of (milli n) = n
milliseconds_of not_a_number = 0
milliseconds_of infinite = 0

abbrev poll_at : ℕ → ℕ → Option (Status × Usage R) × ℕ
poll_at end_time k = (if leb end_time k then some (exited 0, usage) else none, k)

abbrev end_time_of : ℕ → ℕ → Child → ℕ
end_time_of solution_end validator_end the_solution = solution_end
end_time_of solution_end validator_end the_validator = validator_end

-- A sleep takes a millisecond more than was asked for. A child that is killed gets signal 9.
abbrev kernel : ℕ → ℕ → Kernel R
kernel solution_end validator_end = record {
  State = ℕ;
  monotonic = λ k. (milli k, k);
  sleep = λ seconds k. k + (1 + milliseconds_of seconds);
  spawn = λ child argv limits k. (true, k);
  poll = λ child k. poll_at (end_time_of solution_end validator_end child) k;
  wait = λ child k. ((signaled 9, usage), k);
  kill_group = λ child k. (true, k);
  output_size = λ k. (some 5, k);
  watched = λ k. (false, k);
}

passed : (deadline k : ℕ) → deadline - k ≡ 0 → leb deadline k ≡ true
passed deadline k h = ground arith

abbrev clock :
    (solution_end validator_end deadline : ℕ)
    → Clock (kernel solution_end validator_end) (milli deadline)
clock solution_end validator_end deadline = record {
  ticks = λ k. deadline - k;
  sleep_ticks = λ seconds k. omega arith;
  monotonic_ticks = λ k. omega arith;
  spawn_ticks = λ child argv limits k. omega arith;
  poll_ticks = λ child k. omega arith;
  wait_ticks = λ child k. omega arith;
  kill_ticks = λ child k. omega arith;
  watched_ticks = λ k. omega arith;
  passed = λ k h. passed deadline k h;
}

abbrev arguments : Runner.Arguments R
arguments = record { hard_kill = milli 10; output_limit = 100; argv = codes "./a.out" ∷ [] }

abbrev fresh : (solution_end validator_end : ℕ) → System (kernel solution_end validator_end)
fresh solution_end validator_end = record { kernel = 0; events = [] }

abbrev killed_report : Json Number
killed_report =
    result_json R (milli 12)
      (record { status = signaled 9; usage = usage; timed_out = true; exceeded = false }) false

-- A solution that would end after a second is killed.
abbrev late_end : System (kernel 1000 0)
late_end = record {
  kernel = 12;
  events =
      killed the_solution ∷ reaped the_solution ∷ killed the_solution ∷ started the_solution ∷ [];
}

late_run :
    Runner.main (kernel 1000 0) 20 arguments (fresh 1000 0) ≡ (ok (some killed_report), late_end)
unfolding Runner.main Runner.run_loop problem_verifier.Processes.Loops.loop Runner.round
    problem_verifier.Prelude.nat_eq Runner.stop_child Runner.finish
late_run = refl

late_run_returns :
    (Runner.main (kernel 1000 0) 20 arguments (fresh 1000 0)).0 ≡ ok (some killed_report)
late_run_returns = ap (λ r. r.0) late_run

main-IsMeasured_example :
    IsMeasured
      (kernel 1000 0)
      []
      false
      killed_report
      (Runner.main (kernel 1000 0) 20 arguments (fresh 1000 0)).1
main-IsMeasured_example =
    main-IsMeasured (kernel 1000 0) 20 arguments false (fresh 1000 0) late_run_returns

main_ends_example :
    ((Runner.main (kernel 1000 0) 20 arguments (fresh 1000 0)).0 ≡ err os_error)
    ⊎ ((raw : Json Number) × ((Runner.main (kernel 1000 0) 20 arguments (fresh 1000 0)).0
          ≡ ok (some raw)))
main_ends_example =
    main_ends (kernel 1000 0) 20 arguments (fresh 1000 0) (clock 1000 0 10) (omega arith)

abbrev pair_arguments : PairRunner.Arguments R
pair_arguments = record {
  hard_kill = milli 10;
  pair_timeout = milli 20;
  argv = codes "./a.out" ∷ [];
  validator_argv = codes "./validator" ∷ [];
}

-- The solution ends in time, and the validator does not.
abbrev hanging : Kernel R
hanging = kernel 4 1000

abbrev hanging_pair : PairRunner.Pair R
hanging_pair = record {
  solution = some (record { status = exited 0; usage = usage; wall = milli 6 });
  validator = some (signaled 9);
  sol_timed_out = false;
  pair_timed_out = true;
}

abbrev hanging_report : Json Number
hanging_report =
    pair_json R (record { status = exited 0; usage = usage; wall = milli 6 }) (signaled 9)
      hanging_pair

abbrev hanging_run : PairRun R
hanging_run = record {
  solution = record {
    wall = milli 6;
    cpu = milli 5;
    max_rss_kib = 900;
    exit_code = pos 0;
    signal = 0;
    timed_out = false;
  };
  validator_exit = negsuc 0;
  pair_timed_out = true;
}

hanging_returns :
    (PairRunner.main hanging 30 pair_arguments (at_first hanging 0)).0 ≡ ok (some hanging_report)
unfolding PairRunner.main PairRunner.start_solution PairRunner.run_loop
    problem_verifier.Processes.Loops.loop PairRunner.round PairRunner.poll_both
    PairRunner.poll_solution PairRunner.poll_validator problem_verifier.Prelude.nat_eq
    PairRunner.stop_pair PairRunner.finish
hanging_returns = refl

hanging_is_read : read_pair_run R hanging_report ≡ ok hanging_run
unfolding read_pair_run problem_verifier.Json.get_item pair_json problem_verifier.Json.find_member
    problem_verifier.Prelude.list_eq problem_verifier.Prelude.nat_eq
    problem_verifier.Interactive.read_solution_run PairRunner.solution_json
    problem_verifier.Json.as_float problem_verifier.Json.as_nat problem_verifier.Json.as_int
    problem_verifier.Json.as_bool
hanging_is_read = refl

hanging_is_blamed : (classify_interactive R hanging_run two_seconds 256).0 ≡ judge_error
unfolding classify_interactive
hanging_is_blamed = refl

main-IsPairReport_example :
    IsPairReport hanging pair_arguments
      (milli 0)
      hanging_report
      (PairRunner.main hanging 30 pair_arguments (at_first hanging 0)).1
main-IsPairReport_example = main-IsPairReport hanging 30 pair_arguments 0 hanging_returns

main-blame_example :
    (events : List Event) × ((PairRunner.main hanging 30 pair_arguments
        (at_first hanging 0)).1.events
      ≡ killed the_validator ∷ killed the_solution ∷ events)
    × (times (reaped the_solution) events ≡ 1)
    × (times (killed the_solution) events ≡ 0)
main-blame_example =
    main-blame hanging 30 pair_arguments 0 two_seconds 256 (MilliRuntime-IsLawful no_json) refl
      hanging_returns hanging_is_read hanging_is_blamed

main_ends_pair_example :
    (((PairRunner.main hanging 30 pair_arguments (at_first hanging 0)).0 ≡ err os_error)
      × (times
            (started the_solution)
            (PairRunner.main hanging 30 pair_arguments (at_first hanging 0)).1.events
          ≡ 0))
    ⊎ ((raw : Json Number) × ((PairRunner.main hanging 30 pair_arguments (at_first hanging 0)).0
          ≡ ok (some raw)))
main_ends_pair_example = main_ends_pair hanging 30 pair_arguments 0 (clock 4 1000 20) (omega arith)

main-Lives_example :
    (life : Life) × Lives the_validator
      (PairRunner.main hanging 30 pair_arguments (at_first hanging 0)).1.events
      life
    × ((PairRunner.is_none (some hanging_report) ≡ true) ⊎ (life ≡ gone))
main-Lives_example = main-Lives hanging 30 pair_arguments 0 the_validator hanging_returns
