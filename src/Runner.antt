-- ===== src/Runner.antt =====
-- image/runner.py, which runs one solution in the container and measures it.
pub mod History
pub mod Progress
use problem_verifier.Prelude.{
  ℕ, ◌+◌, Bool, true, false, Option, none, some, List, [], ◌∷◌, Str, codes, if◌then◌else◌, ltb,
  ◌==◌, nat_eq, list_eq, ℤ, pos,
}
use problem_verifier.Prelude.Result.{Result, ok, err}
use problem_verifier.Json.{Json, bool, int, float, object, Members, end, member}
use problem_verifier.Runtime.{Runtime}
use problem_verifier.Steps.{◌>>=◌, ◌>>◌, pure}
use problem_verifier.Processes.{
  the_solution, Status, Usage, ChildLimits, Kernel, System, P, now, sleep, start, try_reap, reap,
  kill, output_size, watched, must_find, exit_code_of, signal_of,
}
use problem_verifier.Processes.Loops.{Turn, again, done, loop}

-- `args.argv` without a leading "--"; `none` is the error of the parser that there is no command.
abbrev pub some_command : List Str → Option (List Str)
some_command [] = none
some_command (word ∷ words) = some (word ∷ words)

unfoldable pub command_of : List Str → Option (List Str)
command_of [] = none
command_of (word ∷ words) = if word == codes "--" then some_command words else some (word ∷ words)

-- The loop of `watch_output_size` on the sizes that it finds until `stop` is set; `none` is the
-- `OSError`, which is passed over.
unfoldable pub watch_output_size : ℕ → List (Option ℕ) → Bool
watch_output_size limit [] = false
watch_output_size limit (none ∷ sizes) = watch_output_size limit sizes
watch_output_size limit (some size ∷ sizes) =
    let rest = watch_output_size limit sizes in if ltb limit size then true else rest

abbrev pub over_limit : ℕ → Option ℕ → Bool
over_limit limit none = false
over_limit limit (some size) = ltb limit size

module _ (R : Runtime) where
  pub record Arguments : Type 0 where
    pub hard_kill : R.Float
    pub output_limit : ℕ
    pub argv : List Str

  -- A literal such as 0.002
  abbrev pub milliseconds : ℕ → R.Float
  milliseconds n = R.div (R.of_nat n) (R.of_nat 1000)

  -- `set_child_limits`, as `setrlimit` gets them
  unfoldable pub child_limits : R.Float → ChildLimits
  child_limits hard_kill =
      let soft = R.truncate hard_kill + 2 in
      record { cpu_soft = soft; cpu_hard = soft + 1; core = 0 }

  -- How the loop ends: the child's status and usage, and why it was killed, if it was.
  pub record Ending : Type 0 where
    pub status : Status
    pub usage : Usage R
    pub timed_out : Bool
    pub exceeded : Bool

  unfoldable pub result_json : R.Float → Ending → Bool → Json R.Float
  result_json wall ending exceeded = object (
      member (codes "wall") (float (R.round6 wall)) (
        member (codes "cpu") (float (R.round6 (R.add ending.usage.utime ending.usage.stime))) (
          member (codes "max_rss_kib") (int (pos ending.usage.maxrss)) (
            member (codes "exit_code") (int (exit_code_of ending.status)) (
              member (codes "signal") (int (pos (signal_of ending.status))) (
                member (codes "timed_out") (bool ending.timed_out)
                  (member (codes "output_limit_exceeded") (bool exceeded) end)))))))

module _ {R : Runtime} (K : Kernel R) where
  -- The wait for a child that was killed.
  abbrev pub reap_killed : Bool → Bool → Bool → P K (Turn (Unit {0}) (Ending R))
  reap_killed timed_out exceeded found = do
    must_find found
    (status, usage) ← reap K the_solution
    pure (
        done
          (record { status = status; usage = usage; timed_out = timed_out; exceeded = exceeded }))

  unfoldable pub stop_child : Bool → Bool → P K (Turn (Unit {0}) (Ending R))
  stop_child timed_out exceeded = kill K the_solution >>= reap_killed timed_out exceeded

  abbrev pub doze : P K (Turn (Unit {0}) (Ending R))
  doze = sleep K (milliseconds R 2) >> pure (again tt)

  abbrev pub go_by : Bool → Bool → P K (Turn (Unit {0}) (Ending R))
  go_by late too_large =
      if too_large then stop_child false true else if late then stop_child true false else doze

  abbrev pub supervise : R.Float → Option (Status × Usage R) → P K (Turn (Unit {0}) (Ending R))
  supervise deadline (some (status, usage)) =
      pure (done (record { status = status; usage = usage; timed_out = false; exceeded = false }))
  supervise deadline none = do
    time ← now K
    too_large ← watched K
    go_by (R.le deadline time) too_large

  -- The body of the loop of `main`.
  unfoldable pub round : R.Float → Unit {0} → P K (Turn (Unit {0}) (Ending R))
  round deadline v = try_reap K the_solution >>= supervise deadline

  abbrev pub final_size : ℕ → Bool → P K Bool
  final_size limit true = pure true
  final_size limit false = do size ← output_size K; pure (over_limit limit size)

  -- Behind the loop. The `ProcessLookupError` of the last kill is caught.
  unfoldable pub finish : Arguments R → R.Float → Ending R → P K (Json R.Float)
  finish args started ending = do
    time ← now K
    found ← kill K the_solution
    exceeded ← final_size args.output_limit ending.exceeded
    pure (result_json R (R.sub time started) ending exceeded)

  abbrev pub finish_turn :
      Arguments R → R.Float → Turn (Unit {0}) (Ending R) → P K (Option (Json R.Float))
  finish_turn args started (again v) = pure none
  finish_turn args started (done ending) =
      finish args started ending >>= λ result. pure (some result)

  unfoldable pub run_loop : ℕ → Arguments R → R.Float → P K (Option (Json R.Float))
  run_loop fuel args started =
      loop fuel (round (R.add started args.hard_kill)) tt >>= finish_turn args started

  -- `main`, up to the JSON that it writes; `none` where the loop is still running after `fuel` rounds.
  -- The files that are opened before the child is started may fail to open, as the start may.
  unfoldable pub main : ℕ → Arguments R → P K (Option (Json R.Float))
  main fuel args = do
    started ← now K
    start K the_solution args.argv (some (child_limits R args.hard_kill))
    run_loop fuel args started
