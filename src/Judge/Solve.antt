-- ===== src/Judge/Solve.antt =====
-- `judge_solution` of src/icpc_verify/judge.py.
use problem_verifier.Prelude.{
  Bool, true, false, ◌⊎◌, inl, inr, List, [], ◌++◌, map, Option, none, some, Str, codes, strip,
}
use problem_verifier.Prelude.Result.{
  Result, ok, err, validator_error, assertion_error, compare_flag_error, overshoot_spec_error,
  problem_config_error, test_data_error, cpu_error, sandbox_error, value_error, key_error,
  type_error, index_error, timeout_expired, file_not_found, called_process_error, os_error,
  zero_division_error,
}
use problem_verifier.Files.{FilePath, ensure_dir}
use problem_verifier.Languages.{Language, value}
use problem_verifier.Runtime.{Runtime}
use problem_verifier.TimeLimits.{TimeLimits}
use problem_verifier.TestData.{TestCase}
use problem_verifier.Compare.{parse_compare_flags}
use problem_verifier.Results.{TestCaseResult, SolutionResult, solution_verdict}
use problem_verifier.ProblemConfig.{
  ProblemConfig, ValidationMode, default, custom, custom_interactive,
}
use problem_verifier.Solutions.{Solution}
use problem_verifier.Compile.{CompileOptions, CompileOutcome, compile_solution, work_mount}
use problem_verifier.Validators.{BuiltValidator, build_validator}
use problem_verifier.Verdicts.{Verdict, compiler_error, judge_error}
use problem_verifier.World.{Engine, World, M, modify}
use problem_verifier.Steps.{◌>>=◌, ◌>>◌, pure, lift}
use problem_verifier.Judge.{JudgeOptions}
use problem_verifier.Judge.Run.{at}
use problem_verifier.Judge.Cases.{
  Checker, by_comparison, by_validator, by_interaction, Setting, skipped, judge_cases,
}

unfoldable pub validator_log : Str → Str → Str
validator_log log error = strip (log ++ (codes "\n[validator] " ++ error))

abbrev pub language_text : Option Language → Str
language_text none = []
language_text (some language) = value language

module _ (R : Runtime) where
  -- The result as it is first made, with what is set later.
  abbrev pub result_with :
      Solution → JudgeOptions R → Verdict → Str → List (TestCaseResult R) → SolutionResult R
  result_with solution options verdict log testcases = record {
    name = solution.name;
    rel_path = solution.rel_path;
    expected = solution.expected;
    language = language_text solution.language;
    verdict = verdict;
    testcases = testcases;
    compile_log = log;
    machine_factor = options.machine_factor;
    cpu_isolated = options.cpu_isolated;
    warnings = options.warnings;
  }

module _ {R : Runtime} (E : Engine R) where
  -- `except ValidatorError`: the text of the exception instead of a validator.
  abbrev pub caught_validator :
      Result BuiltValidator × World E → Result (Str ⊎ BuiltValidator) × World E
  caught_validator (ok validator, w) = (ok (inr validator), w)
  caught_validator (err (validator_error text), w) = (ok (inl text), w)
  caught_validator (err (compare_flag_error t), w) = (err (compare_flag_error t), w)
  caught_validator (err (overshoot_spec_error t), w) = (err (overshoot_spec_error t), w)
  caught_validator (err (problem_config_error t), w) = (err (problem_config_error t), w)
  caught_validator (err (test_data_error t), w) = (err (test_data_error t), w)
  caught_validator (err (cpu_error t), w) = (err (cpu_error t), w)
  caught_validator (err (sandbox_error t), w) = (err (sandbox_error t), w)
  caught_validator (err value_error, w) = (err value_error, w)
  caught_validator (err key_error, w) = (err key_error, w)
  caught_validator (err type_error, w) = (err type_error, w)
  caught_validator (err index_error, w) = (err index_error, w)
  caught_validator (err assertion_error, w) = (err assertion_error, w)
  caught_validator (err timeout_expired, w) = (err timeout_expired, w)
  caught_validator (err file_not_found, w) = (err file_not_found, w)
  caught_validator (err called_process_error, w) = (err called_process_error, w)
  caught_validator (err os_error, w) = (err os_error, w)
  caught_validator (err zero_division_error, w) = (err zero_division_error, w)

  unfoldable pub try_build :
      Option FilePath → FilePath → JudgeOptions R → M E (Str ⊎ BuiltValidator)
  try_build none work_root options w = (err assertion_error, w)
  try_build (some validator_dir) work_root options w =
      caught_validator (build_validator E validator_dir work_root options.image options.cpuset w)

  abbrev pub checker_of : (BuiltValidator → Checker R) → Str ⊎ BuiltValidator → Str ⊎ Checker R
  checker_of make (inl text) = inl text
  checker_of make (inr validator) = inr (make validator)

  -- The validator of a custom problem, or the flags of the comparison.
  abbrev pub checker_for :
      ValidationMode → ProblemConfig R → FilePath → JudgeOptions R → M E (Str ⊎ Checker R)
  checker_for default config work_root options = do
    flags ← lift (parse_compare_flags R config.validator_flags)
    pure (inr (by_comparison flags))
  checker_for custom config work_root options =
      try_build config.validator_dir work_root options >>= λ built.
      pure (checker_of by_validator built)
  checker_for custom_interactive config work_root options =
      try_build config.validator_dir work_root options >>= λ built.
      pure (checker_of by_interaction built)

  unfoldable pub make_checker : ProblemConfig R → FilePath → JudgeOptions R → M E (Str ⊎ Checker R)
  make_checker config work_root options = checker_for config.validation config work_root options

  -- Behind the validator: its error, or the loop and the verdict.
  abbrev pub judge_with :
      Solution → Setting E → Str → List TestCase → Str ⊎ Checker R → M E (SolutionResult R)
  judge_with solution s log testcases (inl error) = pure (
      result_with R solution s.options judge_error (validator_log log error)
        (map (skipped R) testcases))
  judge_with solution s log testcases (inr checker) = do
    results ← judge_cases E s checker testcases false
    pure (result_with R solution s.options (solution_verdict R results) log results)

  abbrev pub judge_compiled :
      Bool
      → CompileOutcome
      → Solution
      → FilePath
      → (List Str → Setting E)
      → List TestCase
      → M E (SolutionResult R)
  judge_compiled false outcome solution work_root setting testcases = pure (
      result_with R solution (setting []).options compiler_error outcome.log
        (map (skipped R) testcases))
  judge_compiled true outcome solution work_root setting testcases = do
    let s = setting outcome.run_argv
    checker ← make_checker s.config work_root s.options
    judge_with solution s outcome.log testcases checker

  -- What the loop is given, with the two directories below `work_root`.
  abbrev pub setting_of :
      ProblemConfig R → TimeLimits R → FilePath → JudgeOptions R → List Str → Setting E
  setting_of config limits work_root options run_argv = record {
    config = config;
    limits = limits;
    options = options;
    work_dir = at work_root (codes "work");
    io_dir = at work_root (codes "io");
    run_argv = run_argv;
  }

  abbrev pub compile_options : JudgeOptions R → CompileOptions R
  compile_options options = record {
    image = options.image;
    cpuset = options.cpuset;
    flags = options.compile_flags;
    timeout = R.of_nat 120;
  }

  unfoldable pub compile_and_judge :
      ProblemConfig R
      → Solution
      → List TestCase
      → TimeLimits R
      → FilePath
      → JudgeOptions R
      → M E (SolutionResult R)
  compile_and_judge config solution testcases limits work_root options = do
    outcome ←
        compile_solution E solution (at work_root (codes "work")) config.memory_mib
          (compile_options options) work_mount
    judge_compiled outcome.ok outcome solution work_root
        (setting_of config limits work_root options) testcases

  unfoldable pub judge_solution :
      ProblemConfig R
      → Solution
      → List TestCase
      → TimeLimits R
      → FilePath
      → JudgeOptions R
      → M E (SolutionResult R)
  judge_solution config solution testcases limits work_root options = do
    modify (ensure_dir (at work_root (codes "work")))
    modify (ensure_dir (at work_root (codes "io")))
    compile_and_judge config solution testcases limits work_root options
