-- ===== src/Examples/Judging.antt =====
-- A problem with two testcases, judged by an engine whose containers all end well at once.
use problem_verifier.Prelude.{
  ℕ, Bool, true, false, ◌≡◌, ◌≢◌, refl, ◌↔◌, ◌⊎◌, inl, inr, List, [], ◌∷◌, ◌++◌, map, codes, Str,
  Bytes, arith, Option, none, some, All, Both, length, ◌==◌, if◌then◌else◌, pos, take, get_elem?,
  list_eq, nat_eq,
}
use problem_verifier.Prelude.Result.{ok}
use problem_verifier.Json.{Json, bool, int, float, object, Members, end, member}
use problem_verifier.Runtime.{Runtime}
use problem_verifier.Runtime.Thousandths.{Number, milli}
use problem_verifier.Runtime.Milli.{MilliRuntime}
use problem_verifier.Files.{Files, FilePath, Node, file, directory}
use problem_verifier.Languages.{Language}
use problem_verifier.TimeLimits.{TimeLimits}
use problem_verifier.TestData.{TestCase}
use problem_verifier.Compare.Flags.{flags_of}
use problem_verifier.Verdicts.{accepted, wrong_answer, not_run}
use problem_verifier.Results.{TestCaseResult, SolutionResult}
use problem_verifier.ProblemConfig.{ProblemConfig, default}
use problem_verifier.Solutions.{Solution}
use problem_verifier.World.{completed, Engine, World}
use problem_verifier.Sandbox.{SandboxSpec, build_run_argv, remove_args, run_sandbox}
use problem_verifier.Sandbox.Cleanup.{OnlyAbout, run_sandbox_removes}
use problem_verifier.Judge.{JudgeOptions}
use problem_verifier.Judge.Cases.{Setting, by_comparison, judge_cases}
use problem_verifier.Judge.Solve.{setting_of}
use problem_verifier.Judge.Loop.{IsCaseOf, IsAccepted, judge_cases-stops_iff}

-- The runner's result, which stands in the file as the text "clean".
abbrev clean_run : Json Number
clean_run = object (
    member (codes "wall") (float (milli 700)) (
      member (codes "cpu") (float (milli 600)) (
        member (codes "max_rss_kib") (int (pos 1000)) (
          member (codes "exit_code") (int (pos 0)) (
            member (codes "signal") (int (pos 0)) (
              member (codes "timed_out") (bool false)
                (member (codes "output_limit_exceeded") (bool false) end)))))))

abbrev json_of : Bytes → Option (Json Number)
json_of data' = if data' == codes "clean" then some clean_run else none

abbrev pub J : Runtime
J = MilliRuntime json_of

abbrev pub work_root : FilePath
work_root = codes "w" ∷ []

abbrev pub out_dir : FilePath
out_dir = work_root ++ codes "io" ∷ codes "out" ∷ []

-- Every container leaves a result and the output 3 behind.
abbrev pub docker : Engine J
docker = record {
  State = Unit;
  call = λ args timeout s files. (
    completed (pos 0) (codes "main") [],
    s,
    (out_dir ++ codes "run.json" ∷ [], file (codes "clean"))
        ∷ (out_dir ++ codes "stdout" ∷ [], file (codes "3\n"))
        ∷ files,
  );
  fresh = λ s. (codes "00", s);
  user = codes "1000:1000";
}

abbrev pub case_named : Str → TestCase
case_named id = record {
  id = id;
  group = [];
  input_path = codes "data" ∷ (id ++ codes ".in") ∷ [];
  answer_path = codes "data" ∷ (id ++ codes ".ans") ∷ [];
}

abbrev pub cases : List TestCase
cases = case_named (codes "1") ∷ case_named (codes "2") ∷ case_named (codes "3") ∷ []

-- The second answer is not 3.
abbrev pub host : World docker
host = record {
  files =
      (codes "data" ∷ codes "1.in" ∷ [], file (codes "1 2"))
      ∷ (codes "data" ∷ codes "1.ans" ∷ [], file (codes "3"))
      ∷ (codes "data" ∷ codes "2.in" ∷ [], file (codes "2 2"))
      ∷ (codes "data" ∷ codes "2.ans" ∷ [], file (codes "4"))
      ∷ (codes "data" ∷ codes "3.in" ∷ [], file (codes "0 3"))
      ∷ (codes "data" ∷ codes "3.ans" ∷ [], file (codes "3"))
      ∷ (codes "a.py" ∷ [], file (codes "print(3)"))
      ∷ [];
  engine = tt;
  calls = [];
}

abbrev pub config : ProblemConfig J
config = record {
  name = codes "p";
  time_limit = milli 2000;
  memory_mib = 256;
  time_multiplier = milli 1000;
  validation = default;
  validator_flags = [];
  validator_dir = none;
  format_version = codes "legacy";
}

abbrev pub limits : TimeLimits J
limits = record { limit = milli 2000; overshoot = milli 500; hard_kill = milli 2500 }

abbrev pub options : JudgeOptions J
options = record {
  image = codes "icpc";
  cpuset = 1;
  judge_all = false;
  output_limit_mib = 8;
  memory_mib = 256;
  compile_flags = [];
  machine_factor = milli 1000;
  cpu_isolated = true;
  warnings = [];
}

abbrev pub solution : Solution
solution = record {
  name = codes "a.py";
  rel_path = codes "a.py";
  path = codes "a.py" ∷ [];
  expected = codes "accepted";
  language = some Language.python;
  sources = (codes "a.py" ∷ []) ∷ [];
  entry = codes "a.py";
  error = none;
}

abbrev spec : SandboxSpec J
spec = record {
  image = codes "icpc";
  cpuset = 1;
  memory_mib = 256;
  binds = [];
  argv = codes "true" ∷ [];
  timeout = milli 1000;
  user = none;
  workdir = none;
}

run_sandbox_removes_example :
    (name : Str) × (between : List (List Str)) × ((run_sandbox docker spec host).1.calls
      ≡ remove_args name ∷ between)
    × OnlyAbout name (build_run_argv J spec name ∷ host.calls) between
run_sandbox_removes_example = run_sandbox_removes docker spec host

abbrev pub judged_result : TestCaseResult J
judged_result = record {
  id = codes "1";
  group = [];
  verdict = accepted;
  wall = milli 700;
  cpu = milli 600;
  mem_kib = 1000;
  exit_code = pos 0;
  message = [];
}

abbrev pub wrong_result : TestCaseResult J
wrong_result = record judged_result {
  id = codes "2";
  verdict = wrong_answer;
  message = codes "token 1 이 다릅니다: 기대 \"4\", 실제 \"3\"";
}

abbrev pub skipped_result : TestCaseResult J
skipped_result = record {
  id = codes "3";
  group = [];
  verdict = not_run;
  wall = milli 0;
  cpu = milli 0;
  mem_kib = 0;
  exit_code = pos 0;
  message = [];
}

abbrev pub results : List (TestCaseResult J)
results = judged_result ∷ wrong_result ∷ skipped_result ∷ []

abbrev setting : Setting docker
setting = setting_of docker config limits work_root options (codes "main" ∷ [])

abbrev ready : World docker
ready = record host {
  files = (work_root ++ codes "io" ∷ [], directory) ∷ (work_root, directory) ∷ host.files;
}

judge_cases_run :
    (judge_cases docker setting
      (by_comparison (flags_of J false false none none))
      cases
      false
      ready).0
    ≡ ok results
unfolding list_eq problem_verifier.Verdicts.verdict_eq problem_verifier.Prelude.int_eq
    problem_verifier.Prelude.split problem_verifier.Prelude.lstrip problem_verifier.Files.lookup
    problem_verifier.Files.is_file problem_verifier.Files.read_bytes problem_verifier.Files.is_under
    problem_verifier.Files.rmtree problem_verifier.Files.write_bytes problem_verifier.Files.add_dir
    problem_verifier.Files.mkdir problem_verifier.Files.copy_file problem_verifier.Files.fresh_dir
    problem_verifier.Json.find_member problem_verifier.Json.get_item problem_verifier.Json.as_bool
    problem_verifier.Json.as_int problem_verifier.Json.as_nat problem_verifier.Json.as_float
    problem_verifier.Interactive.read_solution_run problem_verifier.Interactive.read_measurement
    problem_verifier.Sandbox.parse_oom_killed problem_verifier.Sandbox.container_name
    problem_verifier.Sandbox.docker problem_verifier.Sandbox.docker_done
    problem_verifier.Sandbox.run_and_inspect problem_verifier.Sandbox.remove_container
    problem_verifier.Sandbox.run_sandbox problem_verifier.Compare.compare_floats
    problem_verifier.Compare.fold_case problem_verifier.Compare.token_matches
    problem_verifier.Compare.token_message problem_verifier.Compare.first_mismatch
    problem_verifier.Compare.compare_tokens problem_verifier.Compare.compare_output
    problem_verifier.Results.str_of_int problem_verifier.Results.exit_code_message
    problem_verifier.Results.classify_run problem_verifier.Judge.Run.load_json
    problem_verifier.Judge.Run.run_one_spec problem_verifier.Judge.Run.ensure_output
    problem_verifier.Judge.Run.collect_run problem_verifier.Judge.Run.prepare_run
    problem_verifier.Judge.Run.run_one_testcase problem_verifier.Judge.Cases.add_judgemessage
    problem_verifier.Judge.Cases.compare_run problem_verifier.Judge.Cases.judge_plain
    problem_verifier.Judge.Cases.judge_interactive problem_verifier.Judge.Cases.judge_case
    problem_verifier.Judge.Cases.judge_cases
judge_cases_run = refl

judge_cases-stops_iff_example :
    ((not_run ≡ not_run)
      ↔ ((false ≡ false) × ¬ All (IsAccepted J) (judged_result ∷ wrong_result ∷ [])))
    × Both (IsCaseOf J) cases results
judge_cases-stops_iff_example =
    judge_cases-stops_iff docker setting (by_comparison (flags_of J false false none none)) cases
      ready 2 {rs = results} {r = skipped_result} judge_cases_run refl
