-- ===== src/Judge/Returned.antt =====
-- What the body of the loop returns for a testcase that is judged.
use problem_verifier.Prelude.{
  ℕ, Bool, true, ◌≡◌, refl, ◌≢◌, inl, inr, List, [], ◌∷◌, ◌++◌, codes, Option, none, some, Str,
  Bytes, arith, Bool-cases, ◌==◌, int_eq,
}
use problem_verifier.Prelude.Result.{Result, ok, err}
use problem_verifier.Runtime.{Runtime}
use problem_verifier.Files.{FilePath, parent, read_bytes}
use problem_verifier.TestData.{TestCase}
use problem_verifier.Compare.{compare_output}
use problem_verifier.TimeLimits.{TimeLimits}
use problem_verifier.Results.{RunMeasurement, TestCaseResult, classify_run}
use problem_verifier.Results.Classify.{classify_run_range}
use problem_verifier.Interactive.{PairRun, classify_interactive}
use problem_verifier.Sandbox.{SandboxResult, run_sandbox}
use problem_verifier.Validators.{
  BuiltValidator, validator_verdict, validator_outcome, run_custom_validator, prepare_validator,
  report_validator, validator_spec, read_judgemessage,
}
use problem_verifier.Verdicts.{Verdict, accepted, not_run, verdict_eq}
use problem_verifier.World.{Engine, World}
use problem_verifier.Steps.{bind_ended, Ensures, Returns, bind-Returns, then-Returns, ◌>>=◌, pure}
use problem_verifier.Judge.Run.{CaseRun, run_one_testcase, at}
use problem_verifier.Judge.RunPair.{InteractiveRun, run_interactive_testcase}
use problem_verifier.Judge.Cases.{
  Checker, by_comparison, by_validator, by_interaction, Setting, measured_result, compare_run,
  ask_validator, verdict_of_run, judge_run, judge_pair, judge_plain, judge_interactive, judge_case,
}

-- The verdict of a case that ran.
abbrev pub IsRun : Verdict × Str → Type 0
IsRun outcome = outcome.0 ≢ not_run

classify_run-IsRun :
    (R : Runtime) (m : RunMeasurement R) (limits : TimeLimits R) (same : Bool) (text : Str)
    → IsRun (classify_run R m limits same text)
classify_run-IsRun R m limits same text = ground (arith, classify_run_range R m limits same text)

classify_interactive-IsRun :
    (R : Runtime) (raw : PairRun R) (limits : TimeLimits R) (memory_mib : ℕ)
    → IsRun (classify_interactive R raw limits memory_mib)
unfolding classify_interactive
classify_interactive-IsRun R raw limits memory_mib = ground arith

module _ {R : Runtime} (E : Engine R) where
  validator_outcome-IsRun :
      (result : SandboxResult) (message : Str) → IsRun (validator_outcome E result message)
  unfolding validator_outcome validator_verdict
  validator_outcome-IsRun result message = ground arith

  run_custom_validator-IsRun :
      (v : BuiltValidator) (i a t f : FilePath) (flags : List Str) (image : Str) (cpuset : ℕ)
      (timeout : R.Float)
      → Returns (run_custom_validator E v i a t f flags image cpuset timeout) IsRun
  unfolding run_custom_validator
  run_custom_validator-IsRun v i a t f flags image cpuset timeout =
      let data_dir = parent f ++ (codes "vdata" ∷ []) in
      let spec = validator_spec E v data_dir f flags image cpuset timeout in
      then-Returns IsRun (prepare_validator E i a t data_dir f)
        (λ _. run_sandbox E spec >>= report_validator E f)
        λ _.
          then-Returns IsRun (run_sandbox E spec) (report_validator E f)
            λ result w. validator_outcome-IsRun result (read_judgemessage R f w.files)

  module _ (s : Setting E) where
    ask_validator-IsRun :
        (outcome : Verdict × Str) (v : BuiltValidator) (case : TestCase) (path : FilePath)
        → IsRun outcome
        → Returns (ask_validator E s outcome v case path) IsRun
    ask_validator-IsRun outcome v case path h w = elim (Bool-cases (outcome.0 == accepted)) [
      | inl e ↦ rw e (
          run_custom_validator-IsRun v case.input_path case.answer_path path
            (at s.io_dir (codes "feedback")) s.config.validator_flags s.options.image
            s.options.cpuset (R.add s.limits.hard_kill (R.of_nat 30)) w)
      | inr e ↦ rw e h
    ]

    verdict_of_run-IsRun :
        (checker : Checker R) (case : TestCase) (m : RunMeasurement R) (run : CaseRun E)
        → Returns (verdict_of_run E s checker case m run) IsRun
    unfolding compare_run
    verdict_of_run-IsRun (by_comparison flags) case m run w =
        compared w (read_bytes case.answer_path w.files)
      where
        compared :
            (w : World E) (read : Result Bytes)
            → Ensures IsRun
                (bind_ended {S = World E}
                  (read, w)
                  λ answer. pure (
                    classify_run R m s.limits
                      (compare_output R run.team_output answer flags).0
                      (compare_output R run.team_output answer flags).1)).0
        compared w (ok answer) = classify_run-IsRun R m s.limits _ _
        compared w (err e) = tt
    verdict_of_run-IsRun (by_validator v) case m run w =
        ask_validator-IsRun (classify_run R m s.limits true []) v case run.output_path
          (classify_run-IsRun R m s.limits true []) w
    verdict_of_run-IsRun (by_interaction v) case m run w =
        ask_validator-IsRun (classify_run R m s.limits true []) v case run.output_path
          (classify_run-IsRun R m s.limits true []) w

    -- The result belongs to the testcase and says that it ran.
    abbrev pub IsResultOf : TestCase → TestCaseResult R → Type 0
    IsResultOf case r = (r.id ≡ case.id) × (r.group ≡ case.group) × (r.verdict ≢ not_run)

    judge_run-IsResultOf :
        (checker : Checker R) (run : CaseRun E) (case : TestCase) (m : Option (RunMeasurement R))
        → Returns (judge_run E s checker run case m) (IsResultOf case)
    judge_run-IsResultOf checker run case none w = (refl, refl, ground arith)
    judge_run-IsResultOf checker run case (some m) w =
        bind-Returns IsRun (IsResultOf case) (verdict_of_run E s checker case m run)
          (λ outcome. pure (measured_result R m case outcome run.note))
          (verdict_of_run-IsRun checker case m run) (λ outcome h w. (refl, refl, h)) w

    judge_pair-IsResultOf :
        (run : InteractiveRun E) (case : TestCase) (pair : Option (PairRun R))
        → Returns (judge_pair E s run case pair) (IsResultOf case)
    judge_pair-IsResultOf run case none w = (refl, refl, ground arith)
    judge_pair-IsResultOf run case (some pair) w =
        (refl, refl, classify_interactive-IsRun R pair s.limits s.options.memory_mib)

    judge_plain-IsResultOf :
        (checker : Checker R) (case : TestCase)
        → Returns (judge_plain E s checker case) (IsResultOf case)
    unfolding judge_plain
    judge_plain-IsResultOf checker case =
        then-Returns (IsResultOf case)
          (run_one_testcase E case s.run_argv s.work_dir s.io_dir s.limits s.options)
          (λ run. judge_run E s checker run case run.measurement)
          λ run. judge_run-IsResultOf checker run case run.measurement

    judge_interactive-IsResultOf :
        (v : BuiltValidator) (case : TestCase)
        → Returns (judge_interactive E s v case) (IsResultOf case)
    unfolding judge_interactive
    judge_interactive-IsResultOf v case =
        then-Returns (IsResultOf case)
          (run_interactive_testcase E case s.run_argv v s.work_dir s.io_dir s.config s.limits
            s.options)
          (λ run. judge_pair E s run case run.pair) λ run. judge_pair-IsResultOf run case run.pair

    pub judge_case-IsResultOf :
        (checker : Checker R) (case : TestCase)
        → Returns (judge_case E s checker case) (IsResultOf case)
    unfolding judge_case
    judge_case-IsResultOf (by_interaction v) case = judge_interactive-IsResultOf v case
    judge_case-IsResultOf (by_comparison f) case = judge_plain-IsResultOf (by_comparison f) case
    judge_case-IsResultOf (by_validator v) case = judge_plain-IsResultOf (by_validator v) case
