-- ===== src/Results/Classify.antt =====
-- What `classify_run` decides, against the order that the head of results.py gives.
use problem_verifier.Prelude.{
  Bool, true, false, ◌≡◌, ◌≢◌, ◌↔◌, ◌⊎◌, Str, pos, arith, nat_eq, int_eq,
}
use problem_verifier.Runtime.{Runtime}
use problem_verifier.TimeLimits.{TimeLimits}
use problem_verifier.Verdicts.{accepted, wrong_answer, time_limit_exceeded, run_time_error}
use problem_verifier.Results.{RunMeasurement, classify_run}

module _ (R : Runtime) where
  -- The run took too long.
  abbrev pub IsSlow : RunMeasurement R → TimeLimits R → Type 0
  IsSlow m limits = (m.timed_out ≡ true) ⊎ (R.lt limits.limit m.wall ≡ true)

  -- The process was killed for its memory, died of a signal or reported failure.
  abbrev pub IsCrash : RunMeasurement R → Type 0
  IsCrash m = (m.oom_killed ≡ true) ⊎ (m.signal ≢ 0) ⊎ (m.exit_code ≢ pos 0)

  -- A run that ended in time, with little enough output, by itself and with exit code 0.
  pub record IsClean (m : RunMeasurement R) (limits : TimeLimits R) : Type 0 where
    pub no_timeout : m.timed_out ≡ false
    pub in_time : R.lt limits.limit m.wall ≡ false
    pub small_output : m.output_limit_exceeded ≡ false
    pub no_oom : m.oom_killed ≡ false
    pub no_signal : m.signal ≡ 0
    pub success : m.exit_code ≡ pos 0

  module _ (m : RunMeasurement R) (limits : TimeLimits R) (compare_ok : Bool) (text : Str) where
    -- A run is accepted exactly when it is clean and its output compares equal.
    pub classify_run-accepted_iff :
        ((classify_run R m limits compare_ok text).0 ≡ accepted)
        ↔ (IsClean m limits × (compare_ok ≡ true))
    unfolding classify_run
    classify_run-accepted_iff = (λ h. ground arith, λ h. ground arith)

    -- Time goes before all else: the verdict is time_limit_exceeded exactly when the run was slow.
    pub classify_run-IsSlow_iff :
        ((classify_run R m limits compare_ok text).0 ≡ time_limit_exceeded) ↔ IsSlow m limits
    unfolding classify_run
    classify_run-IsSlow_iff = (λ h. ground arith, λ h. ground arith)

    -- A crash is reported exactly when the run was in time and below the output limit, and crashed.
    pub classify_run-IsCrash_iff :
        ((classify_run R m limits compare_ok text).0 ≡ run_time_error)
        ↔ ((¬ IsSlow m limits) × (m.output_limit_exceeded ≡ false) × IsCrash m)
    unfolding classify_run
    classify_run-IsCrash_iff = (λ h. ground arith, λ h. ground arith)

    -- The answer is wrong exactly when the run was in time and printed too much, or was clean and its
    -- output differs; in the second case the message is the comparison's.
    pub classify_run-wrong_iff : ((classify_run R m limits compare_ok text).0 ≡ wrong_answer) ↔ (
        ((¬ IsSlow m limits) × (m.output_limit_exceeded ≡ true))
        ⊎ (IsClean m limits
            × (compare_ok ≡ false)
            × ((classify_run R m limits compare_ok text).1 ≡ text)))
    unfolding classify_run
    classify_run-wrong_iff = (λ h. ground arith, λ h. ground arith)

    -- A measured run is never reported as not run, as a compiler error or as a judge error.
    pub classify_run_range :
        let v = (classify_run R m limits compare_ok text).0 in
        (v ≡ accepted) ⊎ (v ≡ wrong_answer) ⊎ (v ≡ time_limit_exceeded) ⊎ (v ≡ run_time_error)
    unfolding classify_run
    classify_run_range = ground arith
