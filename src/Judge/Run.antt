-- ===== src/Judge/Run.antt =====
-- `_run_one_testcase` of src/icpc_verify/judge.py.
use problem_verifier.Prelude.{
  ◌*◌, Bool, true, false, List, [], ◌∷◌, ◌++◌, Option, none, some, Str, Bytes, codes, if◌then◌else◌,
  nat_eq, list_eq, take, strip, str_of_nat,
}
use problem_verifier.Prelude.Result.{Result, ok, err, value_error}
use problem_verifier.Json.{Json}
use problem_verifier.Files.{Files, FilePath, is_file, read_bytes, write_bytes, fresh_dir, copy_file}
use problem_verifier.Runtime.{Runtime}
use problem_verifier.TimeLimits.{TimeLimits}
use problem_verifier.TestData.{TestCase}
use problem_verifier.Results.{RunMeasurement}
use problem_verifier.Interactive.{read_measurement}
use problem_verifier.World.{Engine, M, ask, modify}
use problem_verifier.Steps.{◌>>=◌, ◌>>◌, pure, lift}
use problem_verifier.Sandbox.{SandboxSpec, SandboxResult, run_sandbox}
use problem_verifier.Judge.{JudgeOptions, stderr_keep_bytes}

unfoldable pub missing_run_message : Str → Str
missing_run_message [] = codes "run.json 을 만들지 못했습니다 (container 가 끝까지 실행되지 않았습니다)"
missing_run_message (c ∷ detail) =
    codes "run.json 을 만들지 못했습니다 (container 가 끝까지 실행되지 않았습니다)\nstderr: " ++ (c ∷ detail)

abbrev pub at : FilePath → Str → FilePath
at p name = p ++ (name ∷ [])

module _ (R : Runtime) where
  unfoldable pub describe_missing_run_result : Bytes → Str
  describe_missing_run_result sandbox_stderr =
      missing_run_message (strip (R.decode_replace (take stderr_keep_bytes sandbox_stderr)))

  abbrev tail_of : Result Bytes → Str
  tail_of (ok data') = R.decode_replace (take stderr_keep_bytes data')
  tail_of (err e) = []

  unfoldable pub read_stderr_tail : FilePath → Files → Str
  read_stderr_tail path files = tail_of (read_bytes path files)

  abbrev parsed_json : Option (Json R.Float) → Result (Json R.Float)
  parsed_json none = err value_error
  parsed_json (some raw) = ok raw

  abbrev loads_result : Result Bytes → Result (Json R.Float)
  loads_result (ok data') = parsed_json (R.json_of data')
  loads_result (err e) = err e

  -- `json.loads(path.read_text(encoding="utf-8"))`
  unfoldable pub load_json : FilePath → Files → Result (Json R.Float)
  load_json path files = loads_result (read_bytes path files)

  -- `data or b""`: no file is no output.
  abbrev pub output_of : Result Bytes → Bytes
  output_of (ok data') = data'
  output_of (err e) = []

module _ {R : Runtime} (E : Engine R) where
  unfoldable pub run_one_spec :
      List Str → FilePath → FilePath → FilePath → TimeLimits R → JudgeOptions R → SandboxSpec R
  run_one_spec run_argv work_dir run_dir out_dir limits options = record {
    image = options.image;
    cpuset = options.cpuset;
    memory_mib = options.memory_mib;
    binds =
        record { host = work_dir; target = codes "/work"; mode = codes "ro" }
        ∷ record { host = run_dir; target = codes "/run"; mode = codes "ro" }
        ∷ record { host = out_dir; target = codes "/out"; mode = codes "rw" }
        ∷ [];
    argv =
        codes "python3"
        ∷ codes "/usr/local/bin/runner.py"
        ∷ codes "--input"
        ∷ codes "/run/tc.in"
        ∷ codes "--stdout"
        ∷ codes "/out/stdout"
        ∷ codes "--stderr"
        ∷ codes "/out/stderr"
        ∷ codes "--result"
        ∷ codes "/out/run.json"
        ∷ codes "--hard-kill"
        ∷ R.fixed3 limits.hard_kill
        ∷ codes "--output-limit"
        ∷ str_of_nat (options.output_limit_mib * 1024 * 1024)
        ∷ codes "--"
        ∷ run_argv;
    timeout = R.add limits.hard_kill (R.of_nat 60);
    user = some E.user;
    workdir = none;
  }

  -- What a run gives back: the measurement, if run.json was written, the output with its path, and a
  -- text: what stood on stderr, or why there is no measurement.
  pub record CaseRun : Type 0 where
    pub measurement : Option (RunMeasurement R)
    pub team_output : Bytes
    pub output_path : FilePath
    pub note : Str

  -- A missing output file is made, empty.
  unfoldable pub ensure_output : FilePath → Files → Result Files
  ensure_output path files = ok (if is_file path files then files else write_bytes path [] files)

  unfoldable pub collect_run : FilePath → SandboxResult → M E CaseRun
  collect_run out_dir result = do
    loaded ← ask (load_json R (at out_dir (codes "run.json")))
    raw ← lift loaded
    measurement ← lift (read_measurement R raw result.oom_killed)
    output ← ask (read_bytes (at out_dir (codes "stdout")))
    modify (ensure_output (at out_dir (codes "stdout")))
    note ← ask (read_stderr_tail R (at out_dir (codes "stderr")))
    pure (record {
      measurement = some measurement;
      team_output = output_of R output;
      output_path = at out_dir (codes "stdout");
      note = note;
    })

  abbrev pub missing_run : FilePath → SandboxResult → CaseRun
  missing_run out_dir result = record {
    measurement = none;
    team_output = [];
    output_path = at out_dir (codes "stdout");
    note = describe_missing_run_result R result.stderr;
  }

  abbrev pub collect_if : Bool → FilePath → SandboxResult → M E CaseRun
  collect_if true out_dir result = collect_run out_dir result
  collect_if false out_dir result = pure (missing_run out_dir result)

  -- Fresh directories, with the input in one of them.
  unfoldable pub prepare_run : TestCase → FilePath → FilePath → M E (Unit {0})
  prepare_run case run_dir out_dir = do
    modify (fresh_dir run_dir)
    modify (fresh_dir out_dir)
    modify (copy_file case.input_path (at run_dir (codes "tc.in")))

  unfoldable pub run_one_testcase :
      TestCase → List Str → FilePath → FilePath → TimeLimits R → JudgeOptions R → M E CaseRun
  run_one_testcase case run_argv work_dir io_dir limits options = do
    let run_dir = at io_dir (codes "in")
    let out_dir = at io_dir (codes "out")
    prepare_run case run_dir out_dir
    result ← run_sandbox E (run_one_spec run_argv work_dir run_dir out_dir limits options)
    written ← ask (is_file (at out_dir (codes "run.json")))
    collect_if written out_dir result
