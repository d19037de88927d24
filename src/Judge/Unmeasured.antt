-- ===== src/Judge/Unmeasured.antt =====
-- The verdict of a testcase that no container measured.
use problem_verifier.Prelude.{Option, none, some, ◌≡◌, refl}
use problem_verifier.Prelude.Result.{ok}
use problem_verifier.Runtime.{Runtime}
use problem_verifier.TestData.{TestCase}
use problem_verifier.Results.{RunMeasurement, TestCaseResult}
use problem_verifier.Interactive.{PairRun}
use problem_verifier.Validators.{BuiltValidator}
use problem_verifier.Verdicts.{judge_error}
use problem_verifier.World.{Engine, World}
use problem_verifier.Steps.{Leaves, Ends-bind_ended, of_Ends}
use problem_verifier.Sandbox.Silent.{IsSilent}
use problem_verifier.Judge.Run.{CaseRun, run_one_testcase}
use problem_verifier.Judge.RunPair.{InteractiveRun, run_interactive_testcase}
use problem_verifier.Judge.Cases.{
  Checker, by_comparison, by_validator, by_interaction, Setting, judge_pair, judge_run, judge_plain,
  judge_interactive, judge_case,
}
use problem_verifier.Judge.Fresh.{run_json, run_one_testcase-none, run_interactive_testcase-none}

module _ {R : Runtime} (E : Engine R) (s : Setting E) where
  abbrev IsBlamed : TestCaseResult R → World E → Type 0
  IsBlamed result w = result.verdict ≡ judge_error

  judge_run-IsBlamed :
      (checker : Checker R) (run : CaseRun E) (case : TestCase) (m : Option (RunMeasurement R))
      (w : World E)
      → m ≡ none
      → Leaves IsBlamed (judge_run E s checker run case m w)
  judge_run-IsBlamed checker run case none w e = refl
  judge_run-IsBlamed checker run case (some m) w e = cc

  judge_pair-IsBlamed :
      (run : InteractiveRun E) (case : TestCase) (pair : Option (PairRun R)) (w : World E)
      → pair ≡ none
      → Leaves IsBlamed (judge_pair E s run case pair w)
  judge_pair-IsBlamed run case none w e = refl
  judge_pair-IsBlamed run case (some pair) w e = cc

  module _ (silent : IsSilent E (run_json s.io_dir)) where
    judge_plain-IsBlamed :
        (checker : Checker R) (case : TestCase) (w : World E)
        → Leaves IsBlamed (judge_plain E s checker case w)
    unfolding judge_plain
    judge_plain-IsBlamed checker case w =
        Ends-bind_ended (λ e. Unit) (λ run w'. run.measurement ≡ none) IsBlamed
          (run_one_testcase E case s.run_argv s.work_dir s.io_dir s.limits s.options w) _
          (run_one_testcase-none E s.io_dir silent case s.run_argv s.work_dir s.limits s.options w)
          (λ run w' e. judge_run-IsBlamed checker run case run.measurement w' e)

    judge_interactive-IsBlamed :
        (validator : BuiltValidator) (case : TestCase) (w : World E)
        → Leaves IsBlamed (judge_interactive E s validator case w)
    unfolding judge_interactive
    judge_interactive-IsBlamed validator case w =
        Ends-bind_ended (λ e. Unit) (λ run w'. run.pair ≡ none) IsBlamed
          (run_interactive_testcase E case s.run_argv validator s.work_dir s.io_dir s.config
            s.limits s.options w)
          _
          (run_interactive_testcase-none E s.io_dir silent case s.run_argv validator s.work_dir
            s.config s.limits s.options w)
          (λ run w' e. judge_pair-IsBlamed run case run.pair w' e)

    judge_case-IsBlamed :
        (checker : Checker R) (case : TestCase) (w : World E)
        → Leaves IsBlamed (judge_case E s checker case w)
    unfolding judge_case
    judge_case-IsBlamed (by_comparison flags) case w =
        judge_plain-IsBlamed (by_comparison flags) case w
    judge_case-IsBlamed (by_validator validator) case w =
        judge_plain-IsBlamed (by_validator validator) case w
    judge_case-IsBlamed (by_interaction validator) case w =
        judge_interactive-IsBlamed validator case w

-- A testcase is never judged by a run.json that an earlier one, or anything before it, left behind:
-- where no call of docker makes this file anew, the result of the testcase, if there is one, is a judge
-- error, for each way of checking and whatever files there were.
pub judge_case-unmeasured :
    {R : Runtime} (E : Engine R) (s : Setting E) (checker : Checker R) (case : TestCase)
    (w : World E) {result : TestCaseResult R}
    → IsSilent E (run_json s.io_dir)
    → (judge_case E s checker case w).0 ≡ ok result
    → result.verdict ≡ judge_error
judge_case-unmeasured E s checker case w {result} silent returned =
    of_Ends (λ e. Unit) (IsBlamed E s) (judge_case E s checker case w)
      (judge_case-IsBlamed E s silent checker case w) returned
