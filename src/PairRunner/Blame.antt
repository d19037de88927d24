-- ===== src/PairRunner/Blame.antt =====
-- What it means for a run by image/interactive_runner.py that the judge blames the validator.
use problem_verifier.Prelude.{
  ℕ, true, false, some, List, ◌∷◌, ◌≡◌, inl, inr, Bool-cases, list_eq, nat_eq,
}
use problem_verifier.Prelude.Result.{ok, ok-injective}
use problem_verifier.Json.{Json}
use problem_verifier.Runtime.{Runtime}
use problem_verifier.Runtime.Laws.{IsLawful}
use problem_verifier.TimeLimits.{TimeLimits}
use problem_verifier.Verdicts.{judge_error}
use problem_verifier.Interactive.{PairRun, read_pair_run, classify_interactive}
use problem_verifier.Interactive.Classify.{classify_interactive-blame_iff}
use problem_verifier.Processes.{the_solution, the_validator, Event, reaped, killed, Kernel}
use problem_verifier.PairRunner.{Arguments, main}
use problem_verifier.PairRunner.Tally.{times}
use problem_verifier.PairRunner.History.{main-IsPairReport, at_first, began_at}

module _ {R : Runtime} (K : Kernel R) (fuel : ℕ) (args : Arguments R) (k : K.State) where
  -- A solution that did not time out in the pair was not killed while it ran, since the pair's
  -- deadline is not before its own.
  not-late_not-killed :
      {raw : Json R.Float} {run : PairRun R}
      → IsLawful R
      → R.le
          (R.add (began_at K args k) args.hard_kill)
          (R.add (began_at K args k) args.pair_timeout)
        ≡ true
      → (main K fuel args (at_first K k)).0 ≡ ok (some raw)
      → read_pair_run R raw ≡ ok run
      → run.solution.timed_out ≡ false
      → (events : List Event) × ((main K fuel args (at_first K k)).1.events
          ≡ killed the_validator ∷ killed the_solution ∷ events)
        × (times (reaped the_solution) events ≡ 1)
        × (times (killed the_solution) events ≡ 0)
  not-late_not-killed {raw} {run} lawful ordered returned read in_time =
      let (run', events, read', e, reaped_once, also, kills, once, kept) =
        main-IsPairReport K fuel args k returned in
      let same : ok run' ≡ ok run = cc in
      let in_time' : run'.solution.timed_out ≡ false = rw (ok-injective same) in_time in
      (
        events,
        e,
        reaped_once,
        elim kills [
          | inl k ↦ rw in_time' at k
          | inr (late, (time, (early, passed))) ↦
              let too_late = lawful.le_trans _ _ time ordered passed in cc
        ],
      )

  -- When the judge blames the validator for a run in the container, the solution was waited for once,
  -- after it ended by itself: its process group was not killed before that, only in the clean-up. This
  -- is for a pair's deadline that is not before the solution's own, and lawful comparisons of floats.
  pub main-blame :
      (limits : TimeLimits R) (memory_mib : ℕ) {raw : Json R.Float} {run : PairRun R}
      → IsLawful R
      → R.le
          (R.add (began_at K args k) args.hard_kill)
          (R.add (began_at K args k) args.pair_timeout)
        ≡ true
      → (main K fuel args (at_first K k)).0 ≡ ok (some raw)
      → read_pair_run R raw ≡ ok run
      → (classify_interactive R run limits memory_mib).0 ≡ judge_error
      → (events : List Event) × ((main K fuel args (at_first K k)).1.events
          ≡ killed the_validator ∷ killed the_solution ∷ events)
        × (times (reaped the_solution) events ≡ 1)
        × (times (killed the_solution) events ≡ 0)
  main-blame limits memory_mib {raw} {run} lawful ordered returned read blamed =
      let to = (classify_interactive-blame_iff R run limits memory_mib).0 in
      let (not_slow, why) = to blamed in
      not-late_not-killed lawful ordered returned read
        (elim (Bool-cases run.solution.timed_out) [ inl h ↦ absurd (not_slow (inl h)) | inr h ↦ h ])
