-- ===== src/Validators.antt =====
-- src/icpc_verify/validators.py.
pub mod Prepared
use problem_verifier.Prelude.{
  ℕ, not, ◌||◌, List, [], ◌∷◌, ◌++◌, Option, none, some, Str, Bytes, codes, ℤ, pos, if◌then◌else◌,
  ◌==◌, nat_eq, int_eq, list_eq, take, strip,
}
use problem_verifier.Prelude.Result.{Result, ok, err, validator_error}
use problem_verifier.Files.{
  Files, FilePath, is_file, is_dir, read_bytes, rmtree, fresh_dir, copy_file, copytree, parent,
  path_text,
}
use problem_verifier.Results.{str_of_int}
use problem_verifier.Solutions.{Solution, describe_unit}
use problem_verifier.Compile.{CompileOutcome, compile_solution}
use problem_verifier.Runtime.{Runtime}
use problem_verifier.Verdicts.{Verdict, accepted, wrong_answer, judge_error, verdict_eq}
use problem_verifier.World.{Engine, M, ask, modify}
use problem_verifier.Steps.{◌>>=◌, ◌>>◌, pure, lift}
use problem_verifier.Sandbox.{SandboxSpec, SandboxResult, run_sandbox}

abbrev pub judgemessage_cap : ℕ
judgemessage_cap = 4096

abbrev pub validator_mount : Str
validator_mount = codes "/validator"

abbrev pub validator_memory_mib : ℕ
validator_memory_mib = 2048

-- `BuildPlan`: the kind, with the solution where the kind is "sources".
pub data BuildPlan : Type 0 where
  build_script : BuildPlan
  run_script : BuildPlan
  sources : Solution → BuildPlan

pub record BuiltValidator : Type 0 where
  pub dir : FilePath
  pub argv : List Str
  pub log : Str

unfoldable pub no_dir_error : FilePath → Str
no_dir_error validator_dir = codes "validator 디렉토리가 없습니다: " ++ path_text validator_dir

unfoldable pub no_sources_error : Option Str → Str
no_sources_error none = codes "validator 소스를 찾지 못했습니다: None"
no_sources_error (some warning) = codes "validator 소스를 찾지 못했습니다: " ++ warning

unfoldable pub bad_sources_error : Str → Str
bad_sources_error error = codes "validator 소스가 잘못되었습니다: " ++ error

abbrev pub plan_for : Solution → Option Str → Result BuildPlan
plan_for solution none = ok (sources solution)
plan_for solution (some []) = ok (sources solution)
plan_for solution (some (c ∷ error)) = err (validator_error (bad_sources_error (c ∷ error)))

abbrev pub plan_sources : Option Solution × Option Str → Result BuildPlan
plan_sources (none, warning) = err (validator_error (no_sources_error warning))
plan_sources (some solution, warning) = plan_for solution solution.error

unfoldable pub validator_verdict : ℤ → Verdict
validator_verdict exit_code =
    if exit_code == pos 42
    then accepted
    else if exit_code == pos 43
    then wrong_answer
    else judge_error

module _ (R : Runtime) where
  unfoldable pub plan_validator_build : FilePath → Files → Result BuildPlan
  plan_validator_build validator_dir files =
      if not (is_dir validator_dir files)
      then err (validator_error (no_dir_error validator_dir))
      else if is_file (validator_dir ++ (codes "build" ∷ [])) files
      then ok build_script
      else if is_file (validator_dir ++ (codes "run" ∷ [])) files
      then ok run_script
      else plan_sources
          (describe_unit R files validator_dir (parent validator_dir) (codes "validator"))

  abbrev pub message_of : Result Bytes → Str
  message_of (ok data') = R.decode_replace (take judgemessage_cap data')
  message_of (err e) = []

  -- The file is read where it is one; otherwise the text is empty.
  unfoldable pub read_judgemessage : FilePath → Files → Str
  read_judgemessage feedback_dir files =
      message_of (read_bytes (feedback_dir ++ (codes "judgemessage.txt" ∷ [])) files)

unfoldable pub build_failed_error : Str → Str
build_failed_error log = codes "validator build 스크립트가 실패했습니다:\n" ++ log

unfoldable pub no_run_error : Str
no_run_error = codes "build 스크립트가 run 실행 파일을 만들지 않았습니다"

unfoldable pub compile_failed_error : Str → Str
compile_failed_error log = codes "validator 컴파일에 실패했습니다:\n" ++ log

unfoldable pub timeout_message : Str
timeout_message = codes "validator 가 시간 안에 끝나지 않았습니다"

unfoldable pub exit_message : ℤ → Str → Str
exit_message exit_code detail =
    strip (codes "validator exit code " ++ (str_of_int exit_code ++ (codes "\n" ++ detail)))

abbrev pub run_command : List Str
run_command = codes "/validator/run" ∷ []

-- `shutil.rmtree` and `shutil.copytree` of the build directory
unfoldable pub fresh_copy : FilePath → FilePath → Files → Result Files
fresh_copy source target files = ok (copytree source target (rmtree target files))

module _ {R : Runtime} (E : Engine R) where
  unfoldable pub build_spec : FilePath → Str → ℕ → SandboxSpec R
  build_spec build_dir image cpuset = record {
    image = image;
    cpuset = cpuset;
    memory_mib = validator_memory_mib;
    binds = record { host = build_dir; target = validator_mount; mode = codes "rw" } ∷ [];
    argv = codes "/validator/build" ∷ [];
    timeout = R.of_nat 120;
    user = some E.user;
    workdir = some validator_mount;
  }

  -- What `build` left behind.
  abbrev pub after_build : FilePath → SandboxResult → Files → Result BuiltValidator
  after_build build_dir result files =
      let log = R.decode_replace (result.stdout ++ result.stderr) in
      if result.timed_out || not (result.exit_code == pos 0)
      then err (validator_error (build_failed_error log))
      else if not (is_file (build_dir ++ (codes "run" ∷ [])) files)
      then err (validator_error no_run_error)
      else ok (record { dir = build_dir; argv = run_command; log = log })

  abbrev pub after_sources : FilePath → CompileOutcome → Result BuiltValidator
  after_sources build_dir outcome =
      if not outcome.ok
      then err (validator_error (compile_failed_error outcome.log))
      else ok (record { dir = build_dir; argv = outcome.run_argv; log = outcome.log })

  unfoldable pub build_planned : BuildPlan → FilePath → Str → ℕ → M E BuiltValidator
  build_planned run_script build_dir image cpuset =
      pure (record { dir = build_dir; argv = run_command; log = [] })
  build_planned build_script build_dir image cpuset = do
    result ← run_sandbox E (build_spec build_dir image cpuset)
    built ← ask (after_build build_dir result)
    lift built
  build_planned (sources solution) build_dir image cpuset = do
    outcome ←
        compile_solution E solution build_dir validator_memory_mib
          (record { image = image; cpuset = cpuset; flags = []; timeout = R.of_nat 120 })
          validator_mount
    lift (after_sources build_dir outcome)

  unfoldable pub build_validator : FilePath → FilePath → Str → ℕ → M E BuiltValidator
  build_validator validator_dir build_root image cpuset = do
    plan ← ask (plan_validator_build R validator_dir)
    plan' ← lift plan
    let build_dir = build_root ++ (codes "validator" ∷ [])
    modify (fresh_copy validator_dir build_dir)
    build_planned plan' build_dir image cpuset

  unfoldable pub validator_spec :
      BuiltValidator → FilePath → FilePath → List Str → Str → ℕ → R.Float → SandboxSpec R
  validator_spec built data_dir feedback_dir flags image cpuset timeout = record {
    image = image;
    cpuset = cpuset;
    memory_mib = validator_memory_mib;
    binds =
        record { host = built.dir; target = validator_mount; mode = codes "ro" }
        ∷ record { host = data_dir; target = codes "/data"; mode = codes "ro" }
        ∷ record { host = feedback_dir; target = codes "/feedback"; mode = codes "rw" }
        ∷ [];
    argv =
        codes "sh"
        ∷ codes "-c"
        ∷ codes "exec \"$@\" < /data/tc.out"
        ∷ codes "sh"
        ∷ (built.argv ++ (codes "/data/tc.in" ∷ codes "/data/tc.ans" ∷ codes "/feedback" ∷ flags));
    timeout = timeout;
    user = some E.user;
    workdir = some validator_mount;
  }

  -- The verdict of a run of the validator and what `read_judgemessage` read after it.
  unfoldable pub validator_outcome : SandboxResult → Str → Verdict × Str
  validator_outcome result message =
      let verdict = validator_verdict result.exit_code in
      if result.timed_out
      then (judge_error, timeout_message)
      else if verdict == judge_error
      then (
        verdict,
        exit_message result.exit_code (R.decode_replace (take judgemessage_cap result.stderr)),
      )
      else (verdict, message)

  -- What the validator reads, and an empty directory for what it writes.
  unfoldable pub prepare_validator :
      FilePath → FilePath → FilePath → FilePath → FilePath → M E (Unit {0})
  prepare_validator input_path answer_path team_output_path data_dir feedback_dir = do
    modify (fresh_dir data_dir)
    modify (copy_file input_path (data_dir ++ (codes "tc.in" ∷ [])))
    modify (copy_file answer_path (data_dir ++ (codes "tc.ans" ∷ [])))
    modify (copy_file team_output_path (data_dir ++ (codes "tc.out" ∷ [])))
    modify (fresh_dir feedback_dir)

  abbrev pub report_validator : FilePath → SandboxResult → M E (Verdict × Str)
  report_validator feedback_dir result w =
      (ok (validator_outcome result (read_judgemessage R feedback_dir w.files)), w)

  unfoldable pub run_custom_validator :
      BuiltValidator
      → FilePath
      → FilePath
      → FilePath
      → FilePath
      → List Str
      → Str
      → ℕ
      → R.Float
      → M E (Verdict × Str)
  run_custom_validator built input_path answer_path team_output_path feedback_dir flags image cpuset
        timeout =
      do
        let data_dir = parent feedback_dir ++ (codes "vdata" ∷ [])
        prepare_validator input_path answer_path team_output_path data_dir feedback_dir
        result ←
            run_sandbox E (validator_spec built data_dir feedback_dir flags image cpuset timeout)
        report_validator feedback_dir result
