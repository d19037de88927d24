-- ===== src/Judge/Cases.antt =====
-- The loop of `judge_solution` over the testcases, in src/icpc_verify/judge.py.
use problem_verifier.Prelude.{
  Bool, true, false, not, ◌&&◌, List, [], ◌∷◌, ◌++◌, Option, none, some, Str, Bytes, codes, pos,
  if◌then◌else◌, ◌==◌, nat_eq, list_eq, strip,
}
use problem_verifier.Files.{FilePath, read_bytes}
use problem_verifier.Runtime.{Runtime}
use problem_verifier.TimeLimits.{TimeLimits}
use problem_verifier.TestData.{TestCase}
use problem_verifier.Compare.{CompareFlags, compare_output}
use problem_verifier.Results.{RunMeasurement, TestCaseResult, classify_run}
use problem_verifier.ProblemConfig.{ProblemConfig}
use problem_verifier.Interactive.{PairRun, classify_interactive}
use problem_verifier.Validators.{BuiltValidator, run_custom_validator, read_judgemessage}
use problem_verifier.Verdicts.{Verdict, accepted, run_time_error, judge_error, not_run, verdict_eq}
use problem_verifier.World.{Engine, M, ask}
use problem_verifier.Steps.{◌>>=◌, pure, lift}
use problem_verifier.Judge.{JudgeOptions}
use problem_verifier.Judge.Run.{CaseRun, run_one_testcase, at}
use problem_verifier.Judge.RunPair.{InteractiveRun, run_interactive_testcase}

-- How the outputs of a problem are judged: by comparison, by a validator that reads the output, or by
-- one that talks to the solution.
pub data Checker (R : Runtime) : Type 0 where
  by_comparison : CompareFlags R → Checker R
  by_validator : BuiltValidator → Checker R
  by_interaction : BuiltValidator → Checker R

-- `message` with a note behind it, where there is one.
unfoldable pub with_stderr : Str → Str → Str → Str
with_stderr message label [] = message
with_stderr message label (c ∷ stderr) = message ++ (label ++ (c ∷ stderr))

unfoldable pub stderr_label : Str
stderr_label = codes "\nstderr: "

unfoldable pub validator_stderr_label : Str
validator_stderr_label = codes "\nvalidator stderr: "

unfoldable pub add_judgemessage : Str → Str → Str
add_judgemessage message [] = message
add_judgemessage [] (c ∷ judgemessage) = c ∷ judgemessage
add_judgemessage (m ∷ message) (c ∷ judgemessage) =
    strip ((m ∷ message) ++ (codes "\n" ++ (c ∷ judgemessage)))

abbrev pub note_if : Bool → Str → Str → Str → Str
note_if wanted message label stderr = if wanted then with_stderr message label stderr else message

module _ (R : Runtime) where
  -- A result with nothing measured.
  abbrev pub blank_result : Verdict → Str → TestCase → TestCaseResult R
  blank_result verdict message case = record {
    id = case.id;
    group = case.group;
    verdict = verdict;
    wall = R.of_nat 0;
    cpu = R.of_nat 0;
    mem_kib = 0;
    exit_code = pos 0;
    message = message;
  }

  abbrev pub skipped : TestCase → TestCaseResult R
  skipped case = blank_result not_run [] case

  abbrev pub measured_result : RunMeasurement R → TestCase → Verdict × Str → Str → TestCaseResult R
  measured_result m case (verdict, message) note = record {
    id = case.id;
    group = case.group;
    verdict = verdict;
    wall = m.wall;
    cpu = m.cpu;
    mem_kib = m.max_rss_kib;
    exit_code = m.exit_code;
    message = note_if (verdict == run_time_error) message stderr_label note;
  }

  -- The three texts that may be added to the message of an interactive run.
  abbrev pub pair_message : Verdict × Str → Str → Str → Str → Str
  pair_message (verdict, message) judgemessage solution_stderr validator_stderr =
      let said = add_judgemessage message judgemessage in
      let noted = note_if (verdict == run_time_error) said stderr_label solution_stderr in
      note_if (verdict == judge_error) noted validator_stderr_label validator_stderr

  abbrev pub pair_result : PairRun R → TestCase → Verdict × Str → Str → Str → Str → TestCaseResult R
  pair_result pair case outcome judgemessage solution_stderr validator_stderr = record {
    id = case.id;
    group = case.group;
    verdict = outcome.0;
    wall = pair.solution.wall;
    cpu = pair.solution.cpu;
    mem_kib = pair.solution.max_rss_kib;
    exit_code = pair.solution.exit_code;
    message = pair_message outcome judgemessage solution_stderr validator_stderr;
  }

module _ {R : Runtime} (E : Engine R) where
  -- What stays the same from case to case.
  pub record Setting : Type 0 where
    pub config : ProblemConfig R
    pub limits : TimeLimits R
    pub options : JudgeOptions R
    pub work_dir : FilePath
    pub io_dir : FilePath
    pub run_argv : List Str

  module _ (s : Setting) where
    -- A clean run is put to the validator; any other verdict stands.
    abbrev pub ask_validator :
        Verdict × Str → BuiltValidator → TestCase → FilePath → M E (Verdict × Str)
    ask_validator (verdict, message) validator case output_path =
        if verdict == accepted
        then run_custom_validator E validator case.input_path case.answer_path output_path
            (at s.io_dir (codes "feedback")) s.config.validator_flags s.options.image
            s.options.cpuset (R.add s.limits.hard_kill (R.of_nat 30))
        else pure (verdict, message)

    unfoldable pub compare_run :
        CompareFlags R → TestCase → RunMeasurement R → Bytes → M E (Verdict × Str)
    compare_run flags case m team_output = do
      read ← ask (read_bytes case.answer_path)
      answer ← lift read
      let compared = compare_output R team_output answer flags
      pure (classify_run R m s.limits compared.0 compared.1)

    abbrev pub judge_pair :
        InteractiveRun E → TestCase → Option (PairRun R) → M E (TestCaseResult R)
    judge_pair run case none = pure (blank_result R judge_error run.missing_message case)
    judge_pair run case (some pair) = do
      judgemessage ← ask (read_judgemessage R run.feedback_dir)
      pure (
          pair_result R pair case (classify_interactive R pair s.limits s.options.memory_mib)
            judgemessage run.solution_stderr run.validator_stderr)

    abbrev pub verdict_of_run :
        Checker R → TestCase → RunMeasurement R → CaseRun E → M E (Verdict × Str)
    verdict_of_run (by_comparison flags) case m run = compare_run flags case m run.team_output
    verdict_of_run (by_validator validator) case m run =
        ask_validator (classify_run R m s.limits true []) validator case run.output_path
    verdict_of_run (by_interaction validator) case m run =
        ask_validator (classify_run R m s.limits true []) validator case run.output_path

    abbrev pub judge_run :
        Checker R → CaseRun E → TestCase → Option (RunMeasurement R) → M E (TestCaseResult R)
    judge_run checker run case none = pure (blank_result R judge_error run.note case)
    judge_run checker run case (some m) = verdict_of_run checker case m run >>= λ outcome.
        pure (measured_result R m case outcome run.note)

    unfoldable pub judge_plain : Checker R → TestCase → M E (TestCaseResult R)
    judge_plain checker case = do
      run ← run_one_testcase E case s.run_argv s.work_dir s.io_dir s.limits s.options
      judge_run checker run case run.measurement

    unfoldable pub judge_interactive : BuiltValidator → TestCase → M E (TestCaseResult R)
    judge_interactive validator case = do
      run ←
          run_interactive_testcase E case s.run_argv validator s.work_dir s.io_dir s.config s.limits
            s.options
      judge_pair run case run.pair

    -- The body of the loop for a case that is not skipped.
    unfoldable pub judge_case : Checker R → TestCase → M E (TestCaseResult R)
    judge_case (by_interaction validator) case = judge_interactive validator case
    judge_case (by_comparison flags) case = judge_plain (by_comparison flags) case
    judge_case (by_validator validator) case = judge_plain (by_validator validator) case

    abbrev pub stops : TestCaseResult R → Bool
    stops result = not (result.verdict == accepted) && not s.options.judge_all

    -- `for case in testcases`, with the flag `stopped`.
    unfoldable pub judge_cases : Checker R → List TestCase → Bool → M E (List (TestCaseResult R))
    judge_cases checker [] stopped = pure []
    judge_cases checker (case ∷ cases) true =
        judge_cases checker cases true >>= λ results. pure (skipped R case ∷ results)
    judge_cases checker (case ∷ cases) false = do
      result ← judge_case checker case
      results ← judge_cases checker cases (stops result)
      pure (result ∷ results)
