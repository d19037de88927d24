-- ===== src/Judge/RunPair.antt =====
-- `_run_interactive_testcase` of src/icpc_verify/judge.py.
use problem_verifier.Prelude.{
  ◌+◌, Bool, true, false, List, [], ◌∷◌, ◌++◌, Option, none, some, Str, codes, if◌then◌else◌,
  nat_eq, list_eq,
}
use problem_verifier.Files.{FilePath, is_file, fresh_dir, copy_file}
use problem_verifier.Runtime.{Runtime}
use problem_verifier.TimeLimits.{TimeLimits}
use problem_verifier.TestData.{TestCase}
use problem_verifier.ProblemConfig.{ProblemConfig}
use problem_verifier.Interactive.{PairRun, read_pair_run}
use problem_verifier.Validators.{BuiltValidator, validator_mount}
use problem_verifier.World.{Engine, M, ask, modify}
use problem_verifier.Steps.{◌>>=◌, ◌>>◌, pure, lift}
use problem_verifier.Sandbox.{SandboxSpec, SandboxResult, run_sandbox}
use problem_verifier.Judge.{JudgeOptions}
use problem_verifier.Judge.Run.{at, describe_missing_run_result, read_stderr_tail, load_json}

unfoldable pub oom_note : Str
oom_note = codes "\ncontainer 가 OOMKilled 되었습니다 (누가 죽었는지는 구분할 수 없습니다)"

module _ {R : Runtime} (E : Engine R) where
  unfoldable pub interactive_spec :
      List Str
      → BuiltValidator
      → FilePath
      → FilePath
      → FilePath
      → FilePath
      → List Str
      → TimeLimits R
      → JudgeOptions R
      → SandboxSpec R
  interactive_spec run_argv validator work_dir data_dir out_dir feedback_dir flags limits options =
      record {
        image = options.image;
        cpuset = options.cpuset;
        memory_mib = options.memory_mib + 512;
        binds =
            record { host = work_dir; target = codes "/work"; mode = codes "ro" }
            ∷ record { host = validator.dir; target = validator_mount; mode = codes "ro" }
            ∷ record { host = data_dir; target = codes "/data"; mode = codes "ro" }
            ∷ record { host = feedback_dir; target = codes "/feedback"; mode = codes "rw" }
            ∷ record { host = out_dir; target = codes "/out"; mode = codes "rw" }
            ∷ [];
        argv =
            codes "python3"
            ∷ codes "/usr/local/bin/interactive_runner.py"
            ∷ codes "--result"
            ∷ codes "/out/run.json"
            ∷ codes "--hard-kill"
            ∷ R.fixed3 limits.hard_kill
            ∷ codes "--pair-timeout"
            ∷ R.fixed3 (R.add limits.hard_kill (R.of_nat 5))
            ∷ codes "--validator-json"
            ∷ R.dumps (
                validator.argv
                ++ (codes "/data/tc.in" ∷ codes "/data/tc.ans" ∷ codes "/feedback" ∷ flags))
            ∷ codes "--sol-stderr"
            ∷ codes "/out/sol.stderr"
            ∷ codes "--val-stderr"
            ∷ codes "/out/val.stderr"
            ∷ codes "--"
            ∷ run_argv;
        timeout = R.add limits.hard_kill (R.of_nat 60);
        user = some E.user;
        workdir = some validator_mount;
      }

  pub record InteractiveRun : Type 0 where
    pub pair : Option (PairRun R)
    pub feedback_dir : FilePath
    pub missing_message : Str
    pub solution_stderr : Str
    pub validator_stderr : Str

  unfoldable pub collect_pair : FilePath → FilePath → M E InteractiveRun
  collect_pair out_dir feedback_dir = do
    loaded ← ask (load_json R (at out_dir (codes "run.json")))
    raw ← lift loaded
    pair ← lift (read_pair_run R raw)
    solution_stderr ← ask (read_stderr_tail R (at out_dir (codes "sol.stderr")))
    validator_stderr ← ask (read_stderr_tail R (at out_dir (codes "val.stderr")))
    pure (record {
      pair = some pair;
      feedback_dir = feedback_dir;
      missing_message = [];
      solution_stderr = solution_stderr;
      validator_stderr = validator_stderr;
    })

  abbrev pub missing_pair : FilePath → SandboxResult → InteractiveRun
  missing_pair feedback_dir result =
      let message = describe_missing_run_result R result.stderr in
      record {
        pair = none;
        feedback_dir = feedback_dir;
        missing_message = if result.oom_killed then message ++ oom_note else message;
        solution_stderr = [];
        validator_stderr = [];
      }

  abbrev pub collect_pair_if : Bool → FilePath → FilePath → SandboxResult → M E InteractiveRun
  collect_pair_if true out_dir feedback_dir result = collect_pair out_dir feedback_dir
  collect_pair_if false out_dir feedback_dir result = pure (missing_pair feedback_dir result)

  unfoldable pub run_interactive_testcase :
      TestCase
      → List Str
      → BuiltValidator
      → FilePath
      → FilePath
      → ProblemConfig R
      → TimeLimits R
      → JudgeOptions R
      → M E InteractiveRun
  run_interactive_testcase case run_argv validator work_dir io_dir config limits options = do
    let data_dir = at io_dir (codes "idata")
    let out_dir = at io_dir (codes "out")
    let feedback_dir = at io_dir (codes "feedback")
    modify (fresh_dir data_dir)
    modify (fresh_dir out_dir)
    modify (fresh_dir feedback_dir)
    modify (copy_file case.input_path (at data_dir (codes "tc.in")))
    modify (copy_file case.answer_path (at data_dir (codes "tc.ans")))
    result ← run_sandbox E (
        interactive_spec run_argv validator work_dir data_dir out_dir feedback_dir
          config.validator_flags limits options)
    written ← ask (is_file (at out_dir (codes "run.json")))
    collect_pair_if written out_dir feedback_dir result
