-- ===== src/PairRunner/History.antt =====
-- What the report of image/interactive_runner.py says of the run.
use problem_verifier.Prelude.{
  ℕ, true, false, Option, none, some, List, [], ◌∷◌, ◌≡◌, refl, ◌∙◌, ◌⊎◌, inl, inr, list_eq, nat_eq,
}
use problem_verifier.Prelude.Result.{ok}
use problem_verifier.Json.{Json, find_member, get_item, as_bool, as_int, as_nat, as_float}
use problem_verifier.Runtime.{Runtime}
use problem_verifier.Interactive.{PairRun, read_solution_run, read_pair_run}
use problem_verifier.Steps.{Ends, Ends-bind_ended, of_Ends, pure}
use problem_verifier.Processes.{
  the_solution, the_validator, Event, started, reaped, killed, IsOsError, NoError, Ends-NoError,
  after_spawn-Ends, Status, Kernel, System, exit_code_of, signal_of,
}
use problem_verifier.Processes.Loops.{Turn, again, done, loop, loop-Kept}
use problem_verifier.Runner.{child_limits}
use problem_verifier.Processes.Life.{
  starts, passes, unborn, solution-≢-validator, validator-≢-solution,
}
use problem_verifier.PairRunner.{
  Arguments, Measured, Pair, round, finish, finish_turn, both_running, run_loop, start_solution,
  main, pair_json, solution_json,
}
use problem_verifier.PairRunner.Tally.{times, bit}
use problem_verifier.PairRunner.Rounds.{IsTooSoon, IsRunning, IsOver, Turned, round-Turned}

module _ (R : Runtime) where
  abbrev pair_run_of : Measured R → Status → Pair R → PairRun R
  pair_run_of m status pair = record {
    solution = record {
      wall = R.round6 m.wall;
      cpu = R.round6 (R.add m.usage.utime m.usage.stime);
      max_rss_kib = m.usage.maxrss;
      exit_code = exit_code_of m.status;
      signal = signal_of m.status;
      timed_out = pair.sol_timed_out;
    };
    validator_exit = exit_code_of status;
    pair_timed_out = pair.pair_timed_out;
  }

  -- The judge reads back what the runner wrote.
  read_pair_run-pair_json :
      (m : Measured R) (status : Status) (pair : Pair R)
      → read_pair_run R (pair_json R m status pair) ≡ ok (pair_run_of m status pair)
  unfolding read_pair_run read_solution_run pair_json solution_json find_member get_item as_bool
      as_int as_nat as_float list_eq nat_eq
  read_pair_run-pair_json m status pair = refl

module _ {R : Runtime} (K : Kernel R) (args : Arguments R) (began : R.Float) where
  -- What a report says of the run, with the events that led to it.
  abbrev pub IsPairReport : Json R.Float → System K → Type 0
  IsPairReport raw s =
      (run : PairRun R) × (events : List Event) × (read_pair_run R raw ≡ ok run)
      × (s.events ≡ killed the_validator ∷ killed the_solution ∷ events)
      × (times (reaped the_solution) events ≡ 1)
      × (times (reaped the_validator) events ≡ 1)
      × ((times (killed the_solution) events ≡ bit run.solution.timed_out)
          ⊎ ((run.pair_timed_out ≡ true) × ((time : R.Float) × IsTooSoon args began time)))
      × ((run.solution.timed_out ≡ false) ⊎ (times (killed the_solution) events ≡ 1))
      × ((times (killed the_validator) events ≡ 0) ⊎ (run.pair_timed_out ≡ true))

  -- The clean-up finds both statuses: it waits for nobody, and no value that it rounds is missing.
  finish-IsPairReport :
      (pair : Pair R) (s : System K)
      → IsOver args began K pair s
      → Ends NoError IsPairReport (finish K pair s)
  unfolding finish pair_json
  finish-IsPairReport pair s over =
      let (a, status, n, m, e, e', tally, kills, once, kept) = over in
      let n_kills : times (killed the_solution) s.events ≡ n = tally.2 in
      let m_kills : times (killed the_validator) s.events ≡ m = tally.3 in
      rw (e', e)
        (
          pair_run_of R a status pair,
          s.events,
          read_pair_run-pair_json R a status pair,
          refl,
          tally.0,
          tally.1,
          elim kills [ inl k ↦ inl (n_kills ∙ k) | inr k ↦ inr k ],
          elim once [ inl k ↦ inl k | inr k ↦ inr (n_kills ∙ k) ],
          elim kept [ inl k ↦ inl (m_kills ∙ k) | inr k ↦ inr k ],
        )

  abbrev MayReport : Option (Json R.Float) → System K → Type 0
  MayReport none s = Unit
  MayReport (some raw) s = IsPairReport raw s

  finish_turn-MayReport :
      (t : Turn (Pair R) (Pair R)) (s : System K)
      → Turned args began K t s
      → Ends NoError MayReport (finish_turn K t s)
  finish_turn-MayReport (again pair) s h = tt
  finish_turn-MayReport (done pair) s over =
      Ends-bind_ended NoError IsPairReport MayReport (finish K pair s) (λ raw. pure (some raw))
        (finish-IsPairReport pair s over) (λ raw s' h. h)

  run_loop-MayReport :
      (fuel : ℕ) (s : System K)
      → IsRunning args began K (both_running R) s
      → Ends NoError MayReport (run_loop K fuel args began s)
  unfolding run_loop
  run_loop-MayReport fuel s h =
      Ends-bind_ended NoError (Turned args began K) MayReport
        (loop fuel (round K args began) (both_running R) s) (finish_turn K)
        (loop-Kept NoError (IsRunning args began K) (IsOver args began K) (round K args began)
          (round-Turned args began K) fuel (both_running R) s h)
        finish_turn-MayReport

-- The system before the run, and what `started` is in the run.
abbrev pub at_first : {R : Runtime} (K : Kernel R) → K.State → System K
at_first K k = record { kernel = k; events = [] }

abbrev pub began_at : {R : Runtime} (K : Kernel R) → Arguments R → K.State → R.Float
began_at K args k = (K.monotonic (K.spawn the_validator args.validator_argv none k).1).0

module _ {R : Runtime} (K : Kernel R) (fuel : ℕ) (args : Arguments R) (k : K.State) where
  -- What the loop leads to from two children that run, the whole run leads to.
  pub main_by_loop :
      (Q : Option (Json R.Float) → System K → Type 0)
      → ((s : System K)
          → IsRunning args (began_at K args k) K (both_running R) s
          → Ends NoError Q (run_loop K fuel args (began_at K args k) s))
      → Ends IsOsError Q (main K fuel args (at_first K k))
  unfolding main start_solution
  main_by_loop Q behind =
      let spawned = K.spawn the_validator args.validator_argv none k in
      let (began, k₁) = K.monotonic spawned.1 in
      let spawned_too = K.spawn the_solution args.argv (some (child_limits R args.hard_kill)) k₁ in
      after_spawn-Ends K Q the_validator (at_first K k) spawned (λ u. start_solution K fuel args)
        (after_spawn-Ends K Q the_solution
          (record { kernel = k₁; events = started the_validator ∷ [] }) spawned_too
          (λ u. run_loop K fuel args began)
          (Ends-NoError IsOsError Q _ (
            behind
              (record {
                kernel = spawned_too.1;
                events = started the_solution ∷ started the_validator ∷ [];
              })
              (
                (
                  refl,
                  refl,
                  refl,
                  refl,
                  starts (passes (started the_validator) validator-≢-solution unborn),
                  passes (started the_solution) solution-≢-validator (starts unborn),
                ),
                inl refl,
                refl,
              ))))

  -- When a run of a pair in the container returns a report, the judge reads a pair run from it. Both
  -- children were waited for once, and then both process groups were killed. Before that the solution
  -- was killed once if the report says that it timed out, and otherwise only if the pair timed out at a
  -- time at which the solution's own deadline was not reached; the validator only if the pair timed out.
  pub main-IsPairReport :
      {raw : Json R.Float}
      → (main K fuel args (at_first K k)).0 ≡ ok (some raw)
      → IsPairReport K args (began_at K args k) raw (main K fuel args (at_first K k)).1
  main-IsPairReport returned =
      of_Ends IsOsError (MayReport K args (began_at K args k)) (main K fuel args (at_first K k))
        (main_by_loop (MayReport K args (began_at K args k))
          (λ s h. run_loop-MayReport K args (began_at K args k) fuel s h))
        returned
