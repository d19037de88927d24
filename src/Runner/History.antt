-- ===== src/Runner/History.antt =====
-- What a run by image/runner.py does to the solution's process, and what its report says.
use problem_verifier.Prelude.{
  ℕ, Bool, true, false, ◌||◌, Option, none, some, List, ◌∷◌, ◌≡◌, refl, ◌∙◌, ◌⊎◌, inl, inr, ap,
  negsuc, nat_eq, list_eq, arith,
}
use problem_verifier.Prelude.Result.{ok}
use problem_verifier.Json.{Json, find_member, get_item, as_bool, as_int, as_nat, as_float}
use problem_verifier.Runtime.{Runtime}
use problem_verifier.Results.{RunMeasurement}
use problem_verifier.Interactive.{read_solution_run, read_measurement}
use problem_verifier.Steps.{Ends, Ends-bind_ended, of_Ends, bind_ended, pure}
use problem_verifier.Processes.{
  IsOsError, after_spawn-Ends, after_poll, Usage, Event, started, reaped, killed, the_solution,
  Status, exited, signaled, Kernel, System, exit_code_of, signal_of,
}
use problem_verifier.Processes.Loops.{Turn, again, done, Kept, loop, loop-Kept}
use problem_verifier.Runner.{
  Arguments, Ending, result_json, reap_killed, stop_child, go_by, supervise, round, final_size,
  finish, finish_turn, run_loop, main, child_limits,
}

module _ (R : Runtime) where
  abbrev pub measurement_of : R.Float → Ending R → Bool → Bool → RunMeasurement R
  measurement_of wall ending exceeded oom_killed = record {
    wall = R.round6 wall;
    cpu = R.round6 (R.add ending.usage.utime ending.usage.stime);
    max_rss_kib = ending.usage.maxrss;
    exit_code = exit_code_of ending.status;
    signal = signal_of ending.status;
    timed_out = ending.timed_out;
    output_limit_exceeded = exceeded;
    oom_killed = oom_killed;
  }

  -- The judge reads back what the runner wrote.
  pub read_measurement-result_json :
      (wall : R.Float) (ending : Ending R) (exceeded oom_killed : Bool)
      → read_measurement R (result_json R wall ending exceeded) oom_killed
        ≡ ok (measurement_of wall ending exceeded oom_killed)
  unfolding read_measurement read_solution_run result_json find_member get_item as_bool as_int
      as_nat as_float list_eq nat_eq
  read_measurement-result_json wall ending exceeded oom_killed = refl

  signal_or_code : (status : Status) → (signal_of status ≡ 0) ⊎ (exit_code_of status ≡ negsuc 0)
  signal_or_code (exited code) = inl refl
  signal_or_code (signaled signal) = inr refl

abbrev pub stops : Bool → List Event → List Event
stops true events = killed the_solution ∷ events
stops false events = events

module _ {R : Runtime} (K : Kernel R) (before : List Event) where
  abbrev pub IsRunning : Unit {0} → System K → Type 0
  IsRunning v s = s.events ≡ started the_solution ∷ before

  -- The child was waited for once, and killed before that if the runner says so.
  abbrev pub IsOver : Ending R → System K → Type 0
  IsOver ending s =
      s.events
      ≡ reaped the_solution
        ∷ stops (ending.timed_out || ending.exceeded) (started the_solution ∷ before)

  reap_killed-IsOver :
      (timed_out exceeded found : Bool) (s : System K)
      → timed_out || exceeded ≡ true
      → s.events ≡ killed the_solution ∷ started the_solution ∷ before
      → Ends IsOsError (Kept IsRunning IsOver) (reap_killed K timed_out exceeded found s)
  reap_killed-IsOver timed_out exceeded false s h killed_it = refl
  reap_killed-IsOver timed_out exceeded true s h killed_it =
      rw h (ap (λ e. reaped the_solution ∷ e) killed_it)

  stop_child-IsOver :
      (timed_out exceeded : Bool) (s : System K)
      → timed_out || exceeded ≡ true
      → IsRunning tt s
      → Ends IsOsError (Kept IsRunning IsOver) (stop_child K timed_out exceeded s)
  unfolding stop_child
  stop_child-IsOver timed_out exceeded s h running =
      let (found, k) = K.kill_group the_solution s.kernel in
      reap_killed-IsOver timed_out exceeded found
        (record { kernel = k; events = killed the_solution ∷ s.events }) h
        (ap (λ e. killed the_solution ∷ e) running)

  go_by-Kept :
      (late too_large : Bool) (s : System K)
      → IsRunning tt s
      → Ends IsOsError (Kept IsRunning IsOver) (go_by K late too_large s)
  go_by-Kept late true s running = stop_child-IsOver false true s refl running
  go_by-Kept true false s running = stop_child-IsOver true false s refl running
  go_by-Kept false false s running = running

  supervise-Kept :
      (deadline : R.Float) (s : System K) (polled : Option (Status × Usage R) × K.State)
      → IsRunning tt s
      → Ends IsOsError
          (Kept IsRunning IsOver)
          (bind_ended (after_poll K the_solution s polled) (supervise K deadline))
  supervise-Kept deadline s (some ended, k) running = ap (λ e. reaped the_solution ∷ e) running
  supervise-Kept deadline s (none, k) running =
      let (time, k₁) = K.monotonic k in
      let (too_large, k₂) = K.watched k₁ in
      go_by-Kept (R.le deadline time) too_large (record { kernel = k₂; events = s.events }) running

  round-Kept :
      (deadline : R.Float) (v : Unit {0}) (s : System K)
      → IsRunning v s
      → Ends IsOsError (Kept IsRunning IsOver) (round K deadline v s)
  unfolding round
  round-Kept deadline tt s running =
      supervise-Kept deadline s (K.poll the_solution s.kernel) running

  -- What a report says of the run, with the events that led to it.
  abbrev pub IsMeasured : Bool → Json R.Float → System K → Type 0
  IsMeasured oom_killed raw s =
      (m : RunMeasurement R) × (stopped : Bool) × (read_measurement R raw oom_killed ≡ ok m)
      × (s.events
          ≡ killed the_solution
            ∷ reaped the_solution
            ∷ stops stopped (started the_solution ∷ before))
      × ((m.timed_out ≡ false) ⊎ (stopped ≡ true))
      × ((stopped ≡ false) ⊎ (m.timed_out ≡ true) ⊎ (m.output_limit_exceeded ≡ true))
      × ((m.signal ≡ 0) ⊎ (m.exit_code ≡ negsuc 0))

  final_size-grows :
      (limit : ℕ) (already : Bool) (s : System K)
      → Ends IsOsError
          (λ exceeded s'. (s'.events ≡ s.events) × ((already ≡ false) ⊎ (exceeded ≡ true)))
          (final_size K limit already s)
  final_size-grows limit true s = (refl, inr refl)
  final_size-grows limit false s = (refl, inl refl)

  result_json-IsMeasured :
      (wall : R.Float) (ending : Ending R) (exceeded oom_killed : Bool) (s : System K)
      → (ending.exceeded ≡ false) ⊎ (exceeded ≡ true)
      → s.events
        ≡ killed the_solution
          ∷ reaped the_solution
          ∷ stops (ending.timed_out || ending.exceeded) (started the_solution ∷ before)
      → IsMeasured oom_killed (result_json R wall ending exceeded) s
  result_json-IsMeasured wall ending exceeded oom_killed s grown over = (
    measurement_of R wall ending exceeded oom_killed,
    ending.timed_out || ending.exceeded,
    read_measurement-result_json R wall ending exceeded oom_killed,
    over,
    ground arith,
    ground arith,
    signal_or_code R ending.status,
  )

  finish-IsMeasured :
      (args : Arguments R) (began : R.Float) (ending : Ending R) (oom_killed : Bool) (s : System K)
      → IsOver ending s
      → Ends IsOsError (IsMeasured oom_killed) (finish K args began ending s)
  unfolding finish
  finish-IsMeasured args began ending oom_killed s over =
      let (time, k₁) = K.monotonic s.kernel in
      let (found, k₂) = K.kill_group the_solution k₁ in
      let s' : System K = record { kernel = k₂; events = killed the_solution ∷ s.events } in
      Ends-bind_ended IsOsError
        (λ exceeded s''. (s''.events ≡ s'.events) × ((ending.exceeded ≡ false) ⊎ (exceeded ≡ true)))
        (IsMeasured oom_killed) (final_size K args.output_limit ending.exceeded s')
        (λ exceeded. pure (result_json R (R.sub time began) ending exceeded))
        (final_size-grows args.output_limit ending.exceeded s')
        (λ exceeded s'' h.
          result_json-IsMeasured (R.sub time began) ending exceeded oom_killed s'' h.1
            (h.0 ∙ ap (λ e. killed the_solution ∷ e) over))

  abbrev pub MayMeasure : Bool → Option (Json R.Float) → System K → Type 0
  MayMeasure oom_killed none s = Unit
  MayMeasure oom_killed (some raw) s = IsMeasured oom_killed raw s

  finish_turn-MayMeasure :
      (args : Arguments R) (began : R.Float) (oom_killed : Bool) (t : Turn (Unit {0}) (Ending R))
      (s : System K)
      → Kept IsRunning IsOver t s
      → Ends IsOsError (MayMeasure oom_killed) (finish_turn K args began t s)
  finish_turn-MayMeasure args began oom_killed (again v) s h = tt
  finish_turn-MayMeasure args began oom_killed (done ending) s over =
      Ends-bind_ended IsOsError (IsMeasured oom_killed) (MayMeasure oom_killed)
        (finish K args began ending s) (λ raw. pure (some raw))
        (finish-IsMeasured args began ending oom_killed s over) (λ raw s' reported. reported)

  run_loop-MayMeasure :
      (fuel : ℕ) (args : Arguments R) (began : R.Float) (oom_killed : Bool) (s : System K)
      → IsRunning tt s
      → Ends IsOsError (MayMeasure oom_killed) (run_loop K fuel args began s)
  unfolding run_loop
  run_loop-MayMeasure fuel args began oom_killed s running =
      let deadline = R.add began args.hard_kill in
      Ends-bind_ended IsOsError (Kept IsRunning IsOver) (MayMeasure oom_killed)
        (loop fuel (round K deadline) tt s) (finish_turn K args began)
        (loop-Kept IsOsError IsRunning IsOver (round K deadline) (round-Kept deadline) fuel tt s
          running)
        (finish_turn-MayMeasure args began oom_killed)

module _ {R : Runtime} (K : Kernel R) where
  main-MayMeasure :
      (fuel : ℕ) (args : Arguments R) (oom_killed : Bool) (s : System K)
      → Ends IsOsError (MayMeasure K s.events oom_killed) (main K fuel args s)
  unfolding main
  main-MayMeasure fuel args oom_killed s =
      let (began, k) = K.monotonic s.kernel in
      let s' : System K = record { kernel = k; events = s.events } in
      let spawned = K.spawn the_solution args.argv (some (child_limits R args.hard_kill)) k in
      after_spawn-Ends K (MayMeasure K s.events oom_killed) the_solution s' spawned
        (λ u. run_loop K fuel args began)
        (run_loop-MayMeasure K s.events fuel args began oom_killed
          (record { kernel = spawned.1; events = started the_solution ∷ s.events }) refl)

  -- When a run of a solution in the container returns a report, the judge reads a measurement from it.
  -- The solution was started once, was waited for once, its process group was killed at the end, and
  -- was killed before the wait only if the measurement says that the time was over or the output too
  -- long; if it says that the time was over, it was killed. A run that a signal ended has the exit code
  -- -1.
  pub main-IsMeasured :
      (fuel : ℕ) (args : Arguments R) (oom_killed : Bool) (s : System K) {raw : Json R.Float}
      → (main K fuel args s).0 ≡ ok (some raw)
      → IsMeasured K s.events oom_killed raw (main K fuel args s).1
  main-IsMeasured fuel args oom_killed s returned =
      of_Ends IsOsError (MayMeasure K s.events oom_killed) (main K fuel args s)
        (main-MayMeasure fuel args oom_killed s) returned
