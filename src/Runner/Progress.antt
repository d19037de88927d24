-- ===== src/Runner/Progress.antt =====
-- That a run by image/runner.py ends.
use problem_verifier.Prelude.{
  ℕ, ◌≤◌, ◌<◌, Bool, true, false, Option, none, some, ◌∷◌, ◌≡◌, refl, ◌⊎◌, arith,
}
use problem_verifier.Prelude.Result.{Result, ok, err, os_error}
use problem_verifier.Json.{Json}
use problem_verifier.Runtime.{Runtime}
use problem_verifier.Steps.{Ends, Ends-bind_ended, bind_ended, pure}
use problem_verifier.Processes.{
  IsOsError, IsReport, of_Ends-IsReport, after_spawn-Ends, after_poll, Usage, started, killed,
  the_solution, Status, Kernel, System,
}
use problem_verifier.Processes.Clock.{Clock, before-ticks}
use problem_verifier.Processes.Loops.{Turn, again, done, Falls, Finished, loop, loop-Finished}
use problem_verifier.Runner.{
  Arguments, Ending, reap_killed, stop_child, go_by, supervise, round, milliseconds, result_json,
  final_size, finish, finish_turn, run_loop, main, child_limits,
}

module _ {R : Runtime} (K : Kernel R) (deadline : R.Float) (clock : Clock K deadline) where
  abbrev ticks_of : Unit {0} → System K → ℕ
  ticks_of v s = clock.ticks s.kernel

  abbrev Anywhere : Unit {0} → System K → Type 0
  Anywhere v s = Unit

  abbrev AnyEnding : Ending R → System K → Type 0
  AnyEnding ending s = Unit

  abbrev FallsBelow : ℕ → Result (Turn (Unit {0}) (Ending R)) × System K → Type 0
  FallsBelow bound = Ends IsOsError (Falls Anywhere AnyEnding ticks_of bound)

  reap_killed-FallsBelow :
      (bound : ℕ) (timed_out exceeded found : Bool) (s : System K)
      → FallsBelow bound (reap_killed K timed_out exceeded found s)
  reap_killed-FallsBelow bound timed_out exceeded false s = refl
  reap_killed-FallsBelow bound timed_out exceeded true s = tt

  go_by-FallsBelow :
      (bound : ℕ) (late too_large : Bool) (s : System K)
      → (late ≡ false → 0 < bound)
      → clock.ticks s.kernel ≤ bound
      → FallsBelow bound (go_by K late too_large s)
  unfolding stop_child
  go_by-FallsBelow bound late true s left le = reap_killed-FallsBelow bound false true _ _
  go_by-FallsBelow bound true false s left le = reap_killed-FallsBelow bound true false _ _
  go_by-FallsBelow bound false false s left le =
      let after = clock.sleep_ticks (milliseconds R 2) s.kernel in
      let some_left = left refl in (tt, omega arith)

  supervise-FallsBelow :
      (bound : ℕ) (s : System K) (polled : Option (Status × Usage R) × K.State)
      → clock.ticks polled.1 ≤ bound
      → FallsBelow bound (bind_ended (after_poll K the_solution s polled) (supervise K deadline))
  supervise-FallsBelow bound s (some ended, k) le = tt
  supervise-FallsBelow bound s (none, k) le =
      let (time, k₁) = K.monotonic k in
      let (too_large, k₂) = K.watched k₁ in
      let le₁ : clock.ticks k₁ ≤ clock.ticks k = clock.monotonic_ticks k in
      let le₂ : clock.ticks k₂ ≤ clock.ticks k₁ = clock.watched_ticks k₁ in
      go_by-FallsBelow bound (R.le deadline time) too_large
        (record { kernel = k₂; events = s.events })
        (λ early. let left = before-ticks K deadline clock k early in omega arith) (omega arith)

  round-FallsBelow :
      (v : Unit {0}) (s : System K)
      → Anywhere v s
      → FallsBelow (ticks_of v s) (round K deadline v s)
  unfolding round
  round-FallsBelow v s h =
      supervise-FallsBelow (clock.ticks s.kernel) s (K.poll the_solution s.kernel)
        (clock.poll_ticks the_solution s.kernel)

module _ {R : Runtime} (K : Kernel R) where
  final_size-Ends :
      (limit : ℕ) (already : Bool) (s : System K)
      → Ends IsOsError (λ exceeded s'. Unit) (final_size K limit already s)
  final_size-Ends limit true s = tt
  final_size-Ends limit false s = tt

  finish-Ends :
      (args : Arguments R) (began : R.Float) (ending : Ending R) (s : System K)
      → Ends IsOsError (λ raw s'. Unit) (finish K args began ending s)
  unfolding finish
  finish-Ends args began ending s =
      let (time, k₁) = K.monotonic s.kernel in
      let (found, k₂) = K.kill_group the_solution k₁ in
      let s' : System K = record { kernel = k₂; events = killed the_solution ∷ s.events } in
      Ends-bind_ended IsOsError (λ exceeded s''. Unit) (λ raw s''. Unit)
        (final_size K args.output_limit ending.exceeded s')
        (λ exceeded. pure (result_json R (R.sub time began) ending exceeded))
        (final_size-Ends args.output_limit ending.exceeded s') (λ exceeded s'' h. tt)

  finish_turn-IsReport :
      (args : Arguments R) (began : R.Float) (t : Turn (Unit {0}) (Ending R)) (s : System K)
      → Finished (λ ending s'. Unit) t s
      → Ends IsOsError (IsReport K) (finish_turn K args began t s)
  finish_turn-IsReport args began (again v) s h = elim h [ ]
  finish_turn-IsReport args began (done ending) s h =
      Ends-bind_ended IsOsError (λ raw s'. Unit) (IsReport K) (finish K args began ending s)
        (λ raw. pure (some raw)) (finish-Ends args began ending s) (λ raw s' h'. (raw, refl))

  run_loop-IsReport :
      (fuel : ℕ) (args : Arguments R) (began : R.Float)
      (clock : Clock K (R.add began args.hard_kill)) (s : System K)
      → clock.ticks s.kernel < fuel
      → Ends IsOsError (IsReport K) (run_loop K fuel args began s)
  unfolding run_loop
  run_loop-IsReport fuel args began clock s enough =
      let deadline = R.add began args.hard_kill in
      Ends-bind_ended IsOsError (Finished (λ ending s'. Unit)) (IsReport K)
        (loop fuel (round K deadline) tt s) (finish_turn K args began)
        (loop-Finished IsOsError (λ v s'. Unit) (λ ending s'. Unit) (round K deadline)
          (λ v s'. clock.ticks s'.kernel) (round-FallsBelow K deadline clock) fuel tt s tt enough)
        (finish_turn-IsReport args began)

  -- A run of a solution in the container ends: where the clock shows the hard kill's deadline after
  -- less than `fuel` sleeps, the loop breaks within `fuel` rounds, whatever the solution does. What
  -- comes of it is a report, unless an `OSError` was raised.
  pub main_ends :
      (fuel : ℕ) (args : Arguments R) (s : System K)
      (clock : Clock K (R.add (K.monotonic s.kernel).0 args.hard_kill))
      → clock.ticks s.kernel < fuel
      → ((main K fuel args s).0 ≡ err os_error)
        ⊎ ((raw : Json R.Float) × ((main K fuel args s).0 ≡ ok (some raw)))
  unfolding main
  main_ends fuel args s clock enough =
      let (began, k) = K.monotonic s.kernel in
      let limits = some (child_limits R args.hard_kill) in
      let spawned = K.spawn the_solution args.argv limits k in
      let s' : System K = record { kernel = k; events = s.events } in
      let le₁ : clock.ticks k ≤ clock.ticks s.kernel = clock.monotonic_ticks s.kernel in
      let le₂ : clock.ticks spawned.1 ≤ clock.ticks k =
        clock.spawn_ticks the_solution args.argv limits k in
      of_Ends-IsReport K (main K fuel args s) (
        after_spawn-Ends K (IsReport K) the_solution s' spawned (λ u. run_loop K fuel args began)
          (run_loop-IsReport fuel args began clock
            (record { kernel = spawned.1; events = started the_solution ∷ s.events })
            (omega arith)))
