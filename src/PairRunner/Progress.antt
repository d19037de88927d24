-- ===== src/PairRunner/Progress.antt =====
-- That a run by image/interactive_runner.py ends.
use problem_verifier.Prelude.{
  ℕ, ◌+◌, ◌≤◌, ◌<◌, Bool, true, false, Option, none, some, [], ◌∷◌, ◌≡◌, refl, ap, ◌⊎◌, inl, inr,
  arith,
}
use problem_verifier.Prelude.Result.{Result, ok, err, os_error}
use problem_verifier.Json.{Json}
use problem_verifier.Runtime.{Runtime}
use problem_verifier.Steps.{Ends, Ends-bind_ended, bind_ended, pure}
use problem_verifier.Processes.{
  the_solution, the_validator, started, Child, NoError, IsReport, after_spawn, Status, Kernel,
  System,
}
use problem_verifier.Processes.Clock.{Clock}
use problem_verifier.Processes.Loops.{Turn, again, done, Finished, loop, loop-Finished}
use problem_verifier.Runner.{child_limits}
use problem_verifier.PairRunner.{
  Arguments, Measured, Pair, is_none, round, wait_validator, report, finish, finish_turn,
  both_running, run_loop, start_solution, main,
}
use problem_verifier.PairRunner.Measure.{Anywhere, IsMeasured, measure_of, round-FallsBelow}
use problem_verifier.PairRunner.Tally.{times}
use problem_verifier.PairRunner.History.{at_first, began_at}

module _ {R : Runtime} (K : Kernel R) where
  wait_validator-Ends :
      (validator : Option Status) (s : System K)
      → Ends NoError (λ status s'. Unit) (wait_validator K validator s)
  wait_validator-Ends none s = tt
  wait_validator-Ends (some status) s = tt

  report-Ends :
      (pair : Pair R) (status : Status) (solution : Option (Measured R)) (s : System K)
      → is_none solution ≡ false
      → Ends NoError (λ raw s'. Unit) (report K pair status solution s)
  report-Ends pair status none s h = ground arith
  report-Ends pair status (some a) s h = tt

  finish-Ends :
      (pair : Pair R) (s : System K)
      → is_none pair.solution ≡ false
      → Ends NoError (λ raw s'. Unit) (finish K pair s)
  unfolding finish
  finish-Ends pair s h =
      Ends-bind_ended NoError (λ status s'. Unit) (λ raw s'. Unit)
        (wait_validator K pair.validator _) (λ status. report K pair status pair.solution)
        (wait_validator-Ends pair.validator _)
        (λ status s' u. report-Ends pair status pair.solution s' h)

  finish_turn-IsReport :
      (t : Turn (Pair R) (Pair R)) (s : System K)
      → Finished (λ pair s'. is_none pair.solution ≡ false) t s
      → Ends NoError (IsReport K) (finish_turn K t s)
  finish_turn-IsReport (again pair) s h = elim h [ ]
  finish_turn-IsReport (done pair) s h =
      Ends-bind_ended NoError (λ raw s'. Unit) (IsReport K) (finish K pair s)
        (λ raw. pure (some raw)) (finish-Ends pair s h) (λ raw s' u. (raw, refl))

  run_loop-IsReport :
      (fuel : ℕ) (args : Arguments R) (began : R.Float)
      (clock : Clock K (R.add began args.pair_timeout)) (s : System K)
      → clock.ticks s.kernel + 1 < fuel
      → Ends NoError (IsReport K) (run_loop K fuel args began s)
  unfolding run_loop
  run_loop-IsReport fuel args began clock s enough =
      Ends-bind_ended NoError (Finished (IsMeasured K clock began)) (IsReport K)
        (loop fuel (round K args began) (both_running R) s) (finish_turn K)
        (loop-Finished NoError (Anywhere K clock began) (IsMeasured K clock began)
          (round K args began) (measure_of K clock began)
          (λ pair s' u. round-FallsBelow K clock began args pair s' refl) fuel (both_running R) s tt
          (omega arith))
        finish_turn-IsReport

  -- A report, or the error of a start before the solution runs.
  abbrev pub IsEnded : Result (Option (Json R.Float)) × System K → Type 0
  IsEnded r =
      ((r.0 ≡ err os_error) × (times (started the_solution) r.1.events ≡ 0))
      ⊎ ((raw : Json R.Float) × (r.0 ≡ ok (some raw)))

  of_Ends-IsEnded :
      (r : Result (Option (Json R.Float)) × System K) → Ends NoError (IsReport K) r → IsEnded r
  of_Ends-IsEnded (ok result, s) (raw, e) = inr (raw, ap ok e)
  of_Ends-IsEnded (err e, s) h = elim h [ ]

  after_spawn-IsEnded :
      (child : Child) (s : System K) (spawned : Bool × K.State)
      (rest : Unit {0} → System K → Result (Option (Json R.Float)) × System K)
      → times (started the_solution) s.events ≡ 0
      → IsEnded (rest tt (record { kernel = spawned.1; events = started child ∷ s.events }))
      → IsEnded (bind_ended (after_spawn K child s spawned) rest)
  after_spawn-IsEnded child s (true, k) rest e h = h
  after_spawn-IsEnded child s (false, k) rest e h = inl (refl, e)

  -- A run of a pair in the container ends: where the clock shows the pair's deadline after less than
  -- `fuel - 1` sleeps, the loop breaks within `fuel` rounds, whatever the two children do. What comes
  -- of it is a report, or an `OSError` from a start that failed, and then the solution has not run.
  pub main_ends_pair :
      (fuel : ℕ) (args : Arguments R) (k : K.State)
      (clock : Clock K (R.add (began_at K args k) args.pair_timeout))
      → clock.ticks k + 1 < fuel
      → ((((main K fuel args (at_first K k)).0 ≡ err os_error)
            × (times (started the_solution) (main K fuel args (at_first K k)).1.events ≡ 0))
          ⊎ ((raw : Json R.Float) × ((main K fuel args (at_first K k)).0 ≡ ok (some raw))))
  unfolding main start_solution
  main_ends_pair fuel args k clock enough =
      let spawned = K.spawn the_validator args.validator_argv none k in
      let (began, k₁) = K.monotonic spawned.1 in
      let limits = some (child_limits R args.hard_kill) in
      let spawned_too = K.spawn the_solution args.argv limits k₁ in
      let le₁ : clock.ticks spawned.1 ≤ clock.ticks k =
        clock.spawn_ticks the_validator args.validator_argv none k in
      let le₂ : clock.ticks k₁ ≤ clock.ticks spawned.1 = clock.monotonic_ticks spawned.1 in
      let le₃ : clock.ticks spawned_too.1 ≤ clock.ticks k₁ =
        clock.spawn_ticks the_solution args.argv limits k₁ in
      let s : System K = record {
        kernel = spawned_too.1;
        events = started the_solution ∷ started the_validator ∷ [];
      } in
      after_spawn-IsEnded the_validator (at_first K k) spawned (λ u. start_solution K fuel args)
        refl
        (after_spawn-IsEnded the_solution
          (record { kernel = k₁; events = started the_validator ∷ [] }) spawned_too
          (λ u. run_loop K fuel args began) refl
          (of_Ends-IsEnded (run_loop K fuel args began s)
            (run_loop-IsReport fuel args began clock s (omega arith))))
