-- ===== src/PairRunner.antt =====
-- image/interactive_runner.py, which runs a solution and the validator against each other in the
-- container and measures the solution.
pub mod Tally
pub mod Rounds
pub mod History
pub mod Blame
pub mod Measure
pub mod Protocol
pub mod Progress
use problem_verifier.Prelude.{
  ℕ, Bool, true, false, ◌&&◌, Option, none, some, List, [], ◌∷◌, Str, codes, if◌then◌else◌, ℤ, pos,
}
use problem_verifier.Prelude.Result.{Result, ok, err, type_error}
use problem_verifier.Json.{Json, bool, int, float, object, end, member}
use problem_verifier.Runtime.{Runtime}
use problem_verifier.Steps.{◌>>=◌, ◌>>◌, pure, raise}
use problem_verifier.Processes.{
  the_solution, the_validator, Status, Usage, Kernel, System, P, now, sleep, start, try_reap, reap,
  kill, exit_code_of, signal_of,
}
use problem_verifier.Processes.Loops.{Turn, again, done, loop}
use problem_verifier.Runner.{milliseconds, child_limits}

module _ (R : Runtime) where
  -- `validator_argv` is what `json.loads(args.validator_json)` gave.
  pub record Arguments : Type 0 where
    pub hard_kill : R.Float
    pub pair_timeout : R.Float
    pub argv : List Str
    pub validator_argv : List Str

  -- `sol_status`, `sol_usage` and `wall`, which are set together.
  pub record Measured : Type 0 where
    pub status : Status
    pub usage : Usage R
    pub wall : R.Float

  -- The variables of the loop, and of what follows it: `none` is `None`.
  pub record Pair : Type 0 where
    pub solution : Option Measured
    pub validator : Option Status
    pub sol_timed_out : Bool
    pub pair_timed_out : Bool

  abbrev pub both_running : Pair
  both_running = record {
    solution = none;
    validator = none;
    sol_timed_out = false;
    pair_timed_out = false;
  }

  unfoldable pub solution_json : Measured → Bool → Json R.Float
  solution_json m sol_timed_out = object (
      member (codes "wall") (float (R.round6 m.wall)) (
        member (codes "cpu") (float (R.round6 (R.add m.usage.utime m.usage.stime))) (
          member (codes "max_rss_kib") (int (pos m.usage.maxrss)) (
            member (codes "exit_code") (int (exit_code_of m.status)) (
              member (codes "signal") (int (pos (signal_of m.status)))
                (member (codes "timed_out") (bool sol_timed_out) end))))))

  unfoldable pub pair_json : Measured → Status → Pair → Json R.Float
  pair_json m validator_status pair = object (
      member (codes "solution") (solution_json m pair.sol_timed_out) (
        member (codes "validator_exit") (int (exit_code_of validator_status)) (
          member (codes "validator_signal") (int (pos (signal_of validator_status)))
            (member (codes "pair_timed_out") (bool pair.pair_timed_out) end))))

abbrev pub is_none : {A : Type 0} → Option A → Bool
is_none none = true
is_none (some value) = false

module _ {R : Runtime} (K : Kernel R) where
  abbrev pub measured : R.Float → Status × Usage R → P K (Option (Measured R))
  measured started (status, usage) = do
    time ← now K
    pure (some (record { status = status; usage = usage; wall = R.sub time started }))

  abbrev pub take_solution : R.Float → Option (Status × Usage R) → P K (Option (Measured R))
  take_solution started none = pure none
  take_solution started (some ended) = measured started ended

  unfoldable pub poll_solution : R.Float → Option (Measured R) → P K (Option (Measured R))
  poll_solution started (some m) = pure (some m)
  poll_solution started none = try_reap K the_solution >>= take_solution started

  abbrev pub take_validator : Option (Status × Usage R) → P K (Option Status)
  take_validator none = pure none
  take_validator (some (status, usage)) = pure (some status)

  unfoldable pub poll_validator : Option Status → P K (Option Status)
  poll_validator (some status) = pure (some status)
  poll_validator none = try_reap K the_validator >>= take_validator

  -- `kill_group`, which passes over the `ProcessLookupError`, and the wait for what it killed
  unfoldable pub stop_solution : R.Float → P K (Option (Measured R))
  stop_solution started = do
    found ← kill K the_solution
    ended ← reap K the_solution
    measured started ended

  abbrev pub stop_running_solution : R.Float → Option (Measured R) → P K (Option (Measured R))
  stop_running_solution started (some m) = pure (some m)
  stop_running_solution started none = stop_solution started

  abbrev pub stop_running_validator : Option Status → P K (Option Status)
  stop_running_validator (some status) = pure (some status)
  stop_running_validator none = do
    found ← kill K the_validator
    (status, usage) ← reap K the_validator
    pure (some status)

  -- The deadline of the pair, which breaks the loop.
  unfoldable pub stop_pair : R.Float → Pair R → P K (Turn (Pair R) (Pair R))
  stop_pair started pair = do
    solution ← stop_running_solution started pair.solution
    validator ← stop_running_validator pair.validator
    pure (done (record pair { solution = solution; validator = validator; pair_timed_out = true }))

  -- The deadline of the solution, after which the loop continues with no sleep.
  unfoldable pub stop_late_solution : R.Float → Pair R → P K (Turn (Pair R) (Pair R))
  stop_late_solution started pair = do
    solution ← stop_solution started
    pure (again (record pair { solution = solution; sol_timed_out = true }))

  abbrev pub go_by : R.Float → Bool → Bool → Pair R → P K (Turn (Pair R) (Pair R))
  go_by started late pair_late pair =
      if is_none pair.solution && late
      then stop_late_solution started pair
      else if pair_late
      then stop_pair started pair
      else sleep K (milliseconds R 5) >> pure (again pair)

  unfoldable pub poll_both : Arguments R → R.Float → Pair R → P K (Turn (Pair R) (Pair R))
  poll_both args started pair = do
    time ← now K
    solution ← poll_solution started pair.solution
    validator ← poll_validator pair.validator
    go_by started (R.le (R.add started args.hard_kill) time)
        (R.le (R.add started args.pair_timeout) time)
        (record pair { solution = solution; validator = validator })

  -- The loop of `main`, with its condition.
  unfoldable pub round : Arguments R → R.Float → Pair R → P K (Turn (Pair R) (Pair R))
  round args started pair =
      if is_none pair.solution
      then poll_both args started pair
      else if is_none pair.validator
      then poll_both args started pair
      else pure (done pair)

  abbrev pub wait_validator : Option Status → P K Status
  wait_validator (some status) = pure status
  wait_validator none = reap K the_validator >>= λ ended. pure ended.0

  -- `round(None, 6)` is a `TypeError`.
  abbrev pub report : Pair R → Status → Option (Measured R) → P K (Json R.Float)
  report pair status (some m) = pure (pair_json R m status pair)
  report pair status none = raise type_error

  unfoldable pub finish : Pair R → P K (Json R.Float)
  finish pair = do
    found ← kill K the_solution
    found_too ← kill K the_validator
    status ← wait_validator pair.validator
    report pair status pair.solution

  abbrev pub finish_turn : Turn (Pair R) (Pair R) → P K (Option (Json R.Float))
  finish_turn (again pair) = pure none
  finish_turn (done pair) = finish pair >>= λ result. pure (some result)

  unfoldable pub run_loop : ℕ → Arguments R → R.Float → P K (Option (Json R.Float))
  run_loop fuel args started = loop fuel (round args started) (both_running R) >>= finish_turn

  unfoldable pub start_solution : ℕ → Arguments R → P K (Option (Json R.Float))
  start_solution fuel args = do
    started ← now K
    start K the_solution args.argv (some (child_limits R args.hard_kill))
    run_loop fuel args started

  -- `main`, up to the JSON that it writes; `none` where the loop is still running after `fuel` rounds.
  -- The pipes and files that are opened before may fail to open, as the starts may.
  unfoldable pub main : ℕ → Arguments R → P K (Option (Json R.Float))
  main fuel args = start K the_validator args.validator_argv none >> start_solution fuel args
