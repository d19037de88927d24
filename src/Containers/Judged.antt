-- ===== src/Containers/Judged.antt =====
-- No container is left by the judge of a solution.
use problem_verifier.Prelude.{
  Bool, true, false, ◌==◌, List, [], ◌∷◌, Option, none, some, Str, Bytes, codes, ◌⊎◌, inl, inr, ◌≡◌,
  arith,
}
use problem_verifier.Prelude.Result.{Result}
use problem_verifier.Files.{FilePath, read_bytes, ensure_dir}
use problem_verifier.Runtime.{Runtime}
use problem_verifier.TimeLimits.{TimeLimits}
use problem_verifier.TestData.{TestCase}
use problem_verifier.Compare.{CompareFlags, parse_compare_flags}
use problem_verifier.Results.{RunMeasurement, classify_run}
use problem_verifier.ProblemConfig.{
  ProblemConfig, ValidationMode, default, custom, custom_interactive,
}
use problem_verifier.Solutions.{Solution}
use problem_verifier.Compile.{CompileOutcome, compile_solution, work_mount}
use problem_verifier.Interactive.{PairRun}
use problem_verifier.Validators.{BuiltValidator, build_validator}
use problem_verifier.Verdicts.{Verdict, accepted, verdict_eq}
use problem_verifier.World.{Engine, World}
use problem_verifier.Judge.{JudgeOptions}
use problem_verifier.Judge.Run.{CaseRun, at, run_one_testcase}
use problem_verifier.Judge.RunPair.{InteractiveRun, run_interactive_testcase}
use problem_verifier.Judge.Cases.{
  Checker, by_comparison, by_validator, by_interaction, Setting, ask_validator, compare_run,
  judge_pair, verdict_of_run, judge_run, judge_plain, judge_interactive, judge_case, stops,
  judge_cases,
}
use problem_verifier.Judge.Solve.{
  caught_validator, try_build, checker_for, make_checker, judge_with, judge_compiled, setting_of,
  compile_options, compile_and_judge, judge_solution,
}
use problem_verifier.Containers.{IsCleaned, Tidy, Tidy-then, Tidy-if, modify-then}
use problem_verifier.Containers.Compiled.{
  compile_solution-Tidy, build_validator-Tidy, run_custom_validator-Tidy,
}
use problem_verifier.Containers.Runs.{run_one_testcase-Tidy, run_interactive_testcase-Tidy}

module _ {R : Runtime} (E : Engine R) (before : List (List Str)) where
  module _ (s : Setting E) where
    ask_validator-Tidy :
        (outcome : Verdict × Str) (validator : BuiltValidator) (case : TestCase)
        (output_path : FilePath) (w : World E)
        → IsCleaned R before w.calls
        → Tidy before (ask_validator E s outcome validator case output_path w)
    ask_validator-Tidy (verdict, message) validator case output_path w h =
        Tidy-if before (verdict == accepted) _ _ w
          (run_custom_validator-Tidy E before validator case.input_path case.answer_path output_path
            _ _ _ _ _ w h)
          h

    compare_run-Tidy :
        (flags : CompareFlags R) (case : TestCase) (m : RunMeasurement R) (team_output : Bytes)
        (w : World E)
        → IsCleaned R before w.calls
        → Tidy before (compare_run E s flags case m team_output w)
    unfolding compare_run
    compare_run-Tidy flags case m team_output w h =
        Tidy-then before (read_bytes case.answer_path w.files, w) _ h (λ answer w' h'. h')

    verdict_of_run-Tidy :
        (checker : Checker R) (case : TestCase) (m : RunMeasurement R) (run : CaseRun E)
        (w : World E)
        → IsCleaned R before w.calls
        → Tidy before (verdict_of_run E s checker case m run w)
    verdict_of_run-Tidy (by_comparison flags) case m run w h =
        compare_run-Tidy flags case m run.team_output w h
    verdict_of_run-Tidy (by_validator validator) case m run w h =
        ask_validator-Tidy (classify_run R m s.limits true []) validator case run.output_path w h
    verdict_of_run-Tidy (by_interaction validator) case m run w h =
        ask_validator-Tidy (classify_run R m s.limits true []) validator case run.output_path w h

    judge_run-Tidy :
        (checker : Checker R) (run : CaseRun E) (case : TestCase) (m : Option (RunMeasurement R))
        (w : World E)
        → IsCleaned R before w.calls
        → Tidy before (judge_run E s checker run case m w)
    judge_run-Tidy checker run case none w h = h
    judge_run-Tidy checker run case (some m) w h =
        Tidy-then before (verdict_of_run E s checker case m run w) _
          (verdict_of_run-Tidy checker case m run w h) (λ outcome w' h'. h')

    judge_pair-Tidy :
        (run : InteractiveRun E) (case : TestCase) (pair : Option (PairRun R)) (w : World E)
        → IsCleaned R before w.calls
        → Tidy before (judge_pair E s run case pair w)
    judge_pair-Tidy run case none w h = h
    judge_pair-Tidy run case (some pair) w h = h

    judge_plain-Tidy :
        (checker : Checker R) (case : TestCase) (w : World E)
        → IsCleaned R before w.calls
        → Tidy before (judge_plain E s checker case w)
    unfolding judge_plain
    judge_plain-Tidy checker case w h =
        Tidy-then before
          (run_one_testcase E case s.run_argv s.work_dir s.io_dir s.limits s.options w) _
          (run_one_testcase-Tidy E before case s.run_argv s.work_dir s.io_dir s.limits s.options w
            h)
          (λ run w' h'. judge_run-Tidy checker run case run.measurement w' h')

    judge_case-Tidy :
        (checker : Checker R) (case : TestCase) (w : World E)
        → IsCleaned R before w.calls
        → Tidy before (judge_case E s checker case w)
    unfolding judge_case judge_interactive
    judge_case-Tidy (by_comparison flags) case w h = judge_plain-Tidy (by_comparison flags) case w h
    judge_case-Tidy (by_validator validator) case w h =
        judge_plain-Tidy (by_validator validator) case w h
    judge_case-Tidy (by_interaction validator) case w h =
        Tidy-then before
          (run_interactive_testcase E case s.run_argv validator s.work_dir s.io_dir s.config
            s.limits s.options w)
          _
          (run_interactive_testcase-Tidy E before case s.run_argv validator s.work_dir s.io_dir
            s.config s.limits s.options w h)
          (λ run w' h'. judge_pair-Tidy run case run.pair w' h')

    judge_cases-Tidy :
        (checker : Checker R) (cases : List TestCase) (stopped : Bool) (w : World E)
        → IsCleaned R before w.calls
        → Tidy before (judge_cases E s checker cases stopped w)
    unfolding judge_cases
    judge_cases-Tidy checker [] stopped w h = h
    judge_cases-Tidy checker (case ∷ cases) true w h =
        Tidy-then before (judge_cases E s checker cases true w) _
          (judge_cases-Tidy checker cases true w h) (λ results w' h'. h')
    judge_cases-Tidy checker (case ∷ cases) false w h =
        Tidy-then before (judge_case E s checker case w) _ (judge_case-Tidy checker case w h)
          (λ result w₁ h₁.
            Tidy-then before (judge_cases E s checker cases (stops E s result) w₁) _
              (judge_cases-Tidy checker cases (stops E s result) w₁ h₁) (λ results w₂ h₂. h₂))

  caught_validator-world :
      (built : Result BuiltValidator × World E) → (caught_validator E built).1 ≡ built.1
  caught_validator-world built = ground arith

  try_build-Tidy :
      (validator_dir : Option FilePath) (work_root : FilePath) (options : JudgeOptions R)
      (w : World E)
      → IsCleaned R before w.calls
      → Tidy before (try_build E validator_dir work_root options w)
  unfolding try_build
  try_build-Tidy none work_root options w h = h
  try_build-Tidy (some dir) work_root options w h =
      rw (caught_validator-world (build_validator E dir work_root options.image options.cpuset w))
        (build_validator-Tidy E before dir work_root options.image options.cpuset w h)

  checker_for-Tidy :
      (mode : ValidationMode) (config : ProblemConfig R) (work_root : FilePath)
      (options : JudgeOptions R) (w : World E)
      → IsCleaned R before w.calls
      → Tidy before (checker_for E mode config work_root options w)
  checker_for-Tidy default config work_root options w h =
      Tidy-then before (parse_compare_flags R config.validator_flags, w) _ h (λ flags w' h'. h')
  checker_for-Tidy custom config work_root options w h =
      Tidy-then before (try_build E config.validator_dir work_root options w) _
        (try_build-Tidy config.validator_dir work_root options w h) (λ built w' h'. h')
  checker_for-Tidy custom_interactive config work_root options w h =
      Tidy-then before (try_build E config.validator_dir work_root options w) _
        (try_build-Tidy config.validator_dir work_root options w h) (λ built w' h'. h')

  judge_with-Tidy :
      (solution : Solution) (s : Setting E) (log : Str) (testcases : List TestCase)
      (checker : Str ⊎ Checker R) (w : World E)
      → IsCleaned R before w.calls
      → Tidy before (judge_with E solution s log testcases checker w)
  judge_with-Tidy solution s log testcases (inl error) w h = h
  judge_with-Tidy solution s log testcases (inr checker) w h =
      Tidy-then before (judge_cases E s checker testcases false w) _
        (judge_cases-Tidy s checker testcases false w h) (λ results w' h'. h')

  judge_compiled-Tidy :
      (compiled : Bool) (outcome : CompileOutcome) (solution : Solution) (work_root : FilePath)
      (setting : List Str → Setting E) (testcases : List TestCase) (w : World E)
      → IsCleaned R before w.calls
      → Tidy before (judge_compiled E compiled outcome solution work_root setting testcases w)
  unfolding make_checker
  judge_compiled-Tidy false outcome solution work_root setting testcases w h = h
  judge_compiled-Tidy true outcome solution work_root setting testcases w h =
      let s = setting outcome.run_argv in
      Tidy-then before (make_checker E s.config work_root s.options w) _
        (checker_for-Tidy s.config.validation s.config work_root s.options w h)
        (λ checker w' h'. judge_with-Tidy solution s outcome.log testcases checker w' h')

  pub judge_solution-Tidy :
      (config : ProblemConfig R) (solution : Solution) (testcases : List TestCase)
      (limits : TimeLimits R) (work_root : FilePath) (options : JudgeOptions R) (w : World E)
      → IsCleaned R before w.calls
      → Tidy before (judge_solution E config solution testcases limits work_root options w)
  unfolding judge_solution compile_and_judge
  judge_solution-Tidy config solution testcases limits work_root options w h =
      modify-then before (ensure_dir (at work_root (codes "work"))) _ w h λ u w₁ h₁.
        modify-then before (ensure_dir (at work_root (codes "io"))) _ w₁ h₁ λ u w₂ h₂.
          Tidy-then before
            (compile_solution E solution (at work_root (codes "work")) config.memory_mib
              (compile_options E options) work_mount w₂)
            _
            (compile_solution-Tidy E before solution (at work_root (codes "work")) config.memory_mib
              (compile_options E options) work_mount w₂ h₂)
            (λ outcome w₃ h₃.
              judge_compiled-Tidy outcome.ok outcome solution work_root
                (setting_of E config limits work_root options) testcases w₃ h₃)
