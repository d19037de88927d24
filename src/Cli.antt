-- ===== src/Cli.antt =====
-- src/icpc_verify/cli.py behind the argument parser: `run_judge` and `main` with its exit codes.
pub mod Report
use problem_verifier.Prelude.{
  ℕ, Bool, true, false, not, List, [], ◌∷◌, ◌++◌, Option, none, some, Str, Bytes, codes,
  if◌then◌else◌, ◌==◌, nat_eq, list_eq, filter, strip, split_on,
}
use problem_verifier.Prelude.Result.{Result, ok, err, problem_config_error, file_not_found}
use problem_verifier.Runtime.{Runtime}
use problem_verifier.Files.{
  Files, FilePath, is_file, read_bytes, write_bytes, add_dir, rmtree, ensure_dir, parent,
}
use problem_verifier.Languages.{Language}
use problem_verifier.TimeLimits.{TimeLimits, make_time_limits}
use problem_verifier.TestData.{TestCase, collect_testcases}
use problem_verifier.Solutions.{Solution, Findings, discover_solutions}
use problem_verifier.ProblemConfig.{ProblemConfig}
use problem_verifier.ProblemConfig.Load.{Yaml, load_problem_config}
use problem_verifier.Cpu.{CpuPlan, check_arch_and_flags, plan_cpu, apply_cpu_plan}
use problem_verifier.Cpu.Read.{read_text, read_topology, read_cpu_flags}
use problem_verifier.Results.{SolutionResult, matches_expectation}
use problem_verifier.Verdicts.{name}
use problem_verifier.World.{Engine, World, M, ask, modify}
use problem_verifier.Steps.{◌>>=◌, ◌>>◌, pure, raise, lift, finally}
use problem_verifier.Judge.{JudgeOptions}
use problem_verifier.Judge.Factor.{measure_machine_factor}
use problem_verifier.Judge.Solve.{judge_solution}

abbrev pub exit_ok : ℕ
exit_ok = 0

abbrev pub exit_mismatch : ℕ
exit_mismatch = 1

abbrev pub exit_config : ℕ
exit_config = 2

-- What the parser leaves of the command line.
pub record Arguments (R : Runtime) : Type 0 where
  pub problem_dir : FilePath
  pub solution : Str
  pub output : FilePath
  pub image : Str
  pub judge_cpu : Option ℕ
  pub no_offline_sibling : Bool
  pub judge_all : Bool
  pub default_time_limit : R.Float
  pub default_memory_mib : ℕ
  pub timelimit_overshoot : Str
  pub output_limit_mib : ℕ
  pub required_cpu_flags : Str
  pub verdict_match : Str
  pub compile_flags_cpp : Str
  pub compile_flags_c : Str
  pub compile_flags_java : Str

-- The machine: `platform.machine()`, where the CPUs are described and the package stands, what becomes
-- of `sudo tee`, and the name of a new temporary directory; and `json.dumps` of the payload.
pub record Machine (R : Runtime) : Type 0 where
  pub name : Str
  pub sysfs : FilePath
  pub cpuinfo : FilePath
  pub image_digest : FilePath
  pub set_offline : ℕ → Option Str
  pub temporary : FilePath
  pub payload : SolutionResult R → Bool → R.Float → R.Float → Bytes

unfoldable pub no_solution_error : Str → Str
no_solution_error name = codes "solution 을 찾지 못했습니다: " ++ name

abbrev pub first_matched : Str → List Solution → Result Solution
first_matched name [] = err (problem_config_error (no_solution_error name))
first_matched name (solution ∷ solutions) = ok solution

unfoldable pub find_solution : Str → List Solution → Result Solution
find_solution name solutions = first_matched name (filter (λ s. s.rel_path == name) solutions)

-- `[f for f in text.split(",") if f.strip()]`
unfoldable pub required_flags : Str → List Str
required_flags flags = filter (λ f. not (strip f == [])) (split_on b',' flags)

abbrev pub exit_code : Bool → ℕ
exit_code expectation_met = if expectation_met then exit_ok else exit_mismatch

module _ {R : Runtime} (E : Engine R) (Y : Yaml R) (machine : Machine R) where
  abbrev stripped : Result Str → Result Str
  stripped (ok content) = ok (strip content)
  stripped (err e) = err e

  unfoldable pub default_image : Files → Result Str
  default_image files =
      if is_file machine.image_digest files
      then stripped (read_text R machine.image_digest files)
      else err file_not_found

  abbrev pub image_of : Str → Files → Result Str
  image_of [] files = default_image files
  image_of (c ∷ image) files = ok (c ∷ image)

  abbrev pub options_of :
      Arguments R → ProblemConfig R → Str → CpuPlan → R.Float → List Str → JudgeOptions R
  options_of args config image plan machine_factor warnings = record {
    image = image;
    cpuset = plan.judge_cpu;
    judge_all = args.judge_all;
    output_limit_mib = args.output_limit_mib;
    memory_mib = config.memory_mib;
    compile_flags =
        (Language.cpp, args.compile_flags_cpp)
        ∷ (Language.c, args.compile_flags_c)
        ∷ (Language.java, args.compile_flags_java)
        ∷ [];
    machine_factor = machine_factor;
    cpu_isolated = plan.isolated;
    warnings = warnings;
  }

  -- `with tempfile.TemporaryDirectory()`: the directory goes when the judge is done, in any way.
  unfoldable pub judge_in_temporary :
      ProblemConfig R
      → Solution
      → List TestCase
      → TimeLimits R
      → JudgeOptions R
      → M E (SolutionResult R)
  judge_in_temporary config solution testcases limits options = do
    modify (λ files. ok (add_dir machine.temporary files))
    finally (judge_solution E config solution testcases limits machine.temporary options)
        (modify (λ files. ok (rmtree machine.temporary files)))

  -- The payload in its file, and the exit code.
  unfoldable pub store_report : Arguments R → TimeLimits R → SolutionResult R → Bool → M E ℕ
  store_report args limits result expectation_met = do
    modify (ensure_dir (parent args.output))
    modify (λ files. ok (
        write_bytes args.output
          (machine.payload result expectation_met limits.limit limits.hard_kill) files))
    pure (exit_code expectation_met)

  unfoldable pub write_report : Arguments R → TimeLimits R → SolutionResult R → M E ℕ
  write_report args limits result = do
    expectation_met ←
        lift (matches_expectation result.expected (name result.verdict) args.verdict_match)
    store_report args limits result expectation_met

  -- Behind the CPU plan: the image, the machine's factor, the judge and the report.
  unfoldable pub judge_planned :
      Arguments R
      → ProblemConfig R
      → TimeLimits R
      → List TestCase
      → Solution
      → List Str
      → CpuPlan
      → M E ℕ
  judge_planned args config limits testcases solution warnings plan = do
    let all_warnings = warnings ++ (plan.warnings ++ apply_cpu_plan machine.set_offline plan)
    chosen ← ask (image_of args.image)
    image ← lift chosen
    machine_factor ← measure_machine_factor E image plan.judge_cpu 3
    result ←
        judge_in_temporary config solution testcases limits
          (options_of args config image plan machine_factor all_warnings)
    write_report args limits result

  -- The checks of the machine, and the plan for its CPUs.
  unfoldable pub plan_machine : Arguments R → M E CpuPlan
  plan_machine args = do
    cpu_flags ← ask (read_cpu_flags R machine.cpuinfo)
    known ← lift cpu_flags
    lift (check_arch_and_flags machine.name known (required_flags args.required_cpu_flags))
    topology ← ask (read_topology R machine.sysfs)
    cpus ← lift topology
    lift (plan_cpu cpus args.judge_cpu (not args.no_offline_sibling))

  -- What is printed is left out.
  unfoldable pub run_judge : Arguments R → M E ℕ
  run_judge args = do
    loaded ← ask (λ files.
        load_problem_config Y args.problem_dir files args.default_time_limit
          args.default_memory_mib)
    config ← lift loaded
    limits ← lift (make_time_limits R config.time_limit args.timelimit_overshoot)
    collected ← ask (collect_testcases args.problem_dir)
    testcases ← lift collected
    (solutions, warnings) ← ask (λ files. discover_solutions R files args.problem_dir [])
    solution ← lift (find_solution args.solution solutions)
    plan ← plan_machine args
    judge_planned args config limits testcases solution warnings plan

  -- Whatever the exception is, the exit code says that the program could not do its work.
  abbrev pub caught : Result ℕ × World E → ℕ × World E
  caught (ok code, w) = (code, w)
  caught (err e, w) = (exit_config, w)

  unfoldable pub main : Arguments R → World E → ℕ × World E
  main args w = caught (run_judge args w)
