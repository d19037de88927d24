-- ===== src/Examples/Program.antt =====
-- The program as a whole, on a problem with one testcase and one solution.
use problem_verifier.Prelude.{
  ℕ, Bool, true, false, ◌≡◌, refl, ◌⊎◌, List, [], ◌∷◌, ◌++◌, codes, Str, Bytes, Option, none, some,
  pos, list_eq, nat_eq, split,
}
use problem_verifier.Prelude.Result.{ok, err, value_error}
use problem_verifier.Json.{Json, object, end}
use problem_verifier.Runtime.Thousandths.{milli}
use problem_verifier.Files.{Files, FilePath, Node, file, directory}
use problem_verifier.ProblemConfig.Load.{Yaml}
use problem_verifier.World.{completed, Engine, World}
use problem_verifier.Cli.{Arguments, Machine, exit_config, main}
use problem_verifier.Cli.Report.{IsReported, main-IsReported}
use problem_verifier.Examples.Judging.{J}

abbrev out_dir : FilePath
out_dir = codes "tmp" ∷ codes "io" ∷ codes "out" ∷ []

-- Every container prints 1, and leaves a clean run with the output 3 behind.
abbrev docker : Engine J
docker = record {
  State = Unit;
  call = λ args timeout s files. (
    completed (pos 0) (codes "1") [],
    s,
    (out_dir ++ codes "run.json" ∷ [], file (codes "clean"))
        ∷ (out_dir ++ codes "stdout" ∷ [], file (codes "3\n"))
        ∷ files,
  );
  fresh = λ s. (codes "00", s);
  user = codes "1000:1000";
}

abbrev yaml : Yaml J
yaml = record {
  load = λ content. some (object end);
  text_of = λ value. [];
  float_value = λ value. err value_error;
  nat_value = λ value. err value_error;
  split_shell = λ content. ok (split content);
}

abbrev machine : Machine J
machine = record {
  name = codes "x86_64";
  sysfs = codes "sys" ∷ [];
  cpuinfo = codes "cpuinfo" ∷ [];
  image_digest = codes "digest" ∷ [];
  set_offline = λ cpu. none;
  temporary = codes "tmp" ∷ [];
  payload = λ result expectation_met limit hard_kill. codes "report";
}

abbrev arguments : Arguments J
arguments = record {
  problem_dir = codes "p" ∷ [];
  solution = codes "accepted/a.py";
  output = codes "out" ∷ codes "report.json" ∷ [];
  image = [];
  judge_cpu = none;
  no_offline_sibling = false;
  judge_all = false;
  default_time_limit = milli 1000;
  default_memory_mib = 2048;
  timelimit_overshoot = codes "2s|20%";
  output_limit_mib = 8;
  required_cpu_flags = codes "avx2";
  verdict_match = codes "exact";
  compile_flags_cpp = [];
  compile_flags_c = [];
  compile_flags_java = [];
}

abbrev siblings_of_cpu : Str → FilePath
siblings_of_cpu cpu = codes "sys" ∷ cpu ∷ codes "topology" ∷ codes "thread_siblings_list" ∷ []

abbrev host : World docker
host = record {
  files =
      (codes "p" ∷ codes "problem.yaml" ∷ [], file (codes "{}"))
      ∷ (codes "p" ∷ codes "data" ∷ [], directory)
      ∷ (codes "p" ∷ codes "data" ∷ codes "1.in" ∷ [], file (codes "1 2"))
      ∷ (codes "p" ∷ codes "data" ∷ codes "1.ans" ∷ [], file (codes "3"))
      ∷ (codes "p" ∷ codes "solutions" ∷ [], directory)
      ∷ (codes "p" ∷ codes "solutions" ∷ codes "accepted" ∷ [], directory)
      ∷ (
        codes "p" ∷ codes "solutions" ∷ codes "accepted" ∷ codes "a.py" ∷ [],
        file (codes "print(3)"),
      )
      ∷ (codes "cpuinfo" ∷ [], file (codes "flags : fpu avx2\n"))
      ∷ (codes "digest" ∷ [], file (codes "icpc\n"))
      ∷ (codes "sys" ∷ codes "cpu0" ∷ [], directory)
      ∷ (siblings_of_cpu (codes "cpu0"), file (codes "0\n"))
      ∷ (codes "sys" ∷ codes "cpu1" ∷ [], directory)
      ∷ (siblings_of_cpu (codes "cpu1"), file (codes "1\n"))
      ∷ [];
  engine = tt;
  calls = [];
}

main-IsReported_example :
    ((main docker yaml machine arguments host).0 ≡ exit_config)
    ⊎ IsReported docker yaml machine arguments
        (main docker yaml machine arguments host).0
        (main docker yaml machine arguments host).1
main-IsReported_example = main-IsReported docker yaml machine arguments host

-- The solution is accepted, as it should be.
main_run : (main docker yaml machine arguments host).0 ≡ 0
unfolding list_eq nat_eq problem_verifier.Verdicts.verdict_eq problem_verifier.Prelude.int_eq
    problem_verifier.Prelude.option_eq problem_verifier.Languages.language_eq
    problem_verifier.Prelude.is_space problem_verifier.Prelude.split_words
    problem_verifier.Prelude.split problem_verifier.Prelude.split_on problem_verifier.Prelude.cut_at
    problem_verifier.Prelude.lstrip problem_verifier.Prelude.rstrip problem_verifier.Prelude.strip
    problem_verifier.Prelude.join problem_verifier.Prelude.digits_onto
    problem_verifier.Prelude.str_of_nat problem_verifier.Files.lookup problem_verifier.Files.is_file
    problem_verifier.Files.is_dir problem_verifier.Files.read_bytes problem_verifier.Files.is_under
    problem_verifier.Files.rmtree problem_verifier.Files.write_bytes problem_verifier.Files.add_dir
    problem_verifier.Files.mkdir problem_verifier.Files.ensure_dir problem_verifier.Files.copy_file
    problem_verifier.Files.relative_to problem_verifier.Files.copied problem_verifier.Files.copytree
    problem_verifier.Files.path_text problem_verifier.Files.file_name problem_verifier.Files.parent
    problem_verifier.Files.name_suffix problem_verifier.Files.suffix problem_verifier.Files.stem
    problem_verifier.Files.path_le problem_verifier.Files.paths_below
    problem_verifier.Files.rglob_sorted problem_verifier.Files.iterdir_sorted
    problem_verifier.Files.fresh_dir problem_verifier.Sorting.insert_by
    problem_verifier.Sorting.sort_by problem_verifier.Sorting.unique problem_verifier.Sorting.lex_le
    problem_verifier.Json.find_member problem_verifier.Json.get_item problem_verifier.Json.as_bool
    problem_verifier.Json.as_int problem_verifier.Json.as_nat problem_verifier.Json.as_float
    problem_verifier.Interactive.read_solution_run problem_verifier.Interactive.read_measurement
    problem_verifier.Sandbox.truth problem_verifier.Sandbox.parse_oom_killed
    problem_verifier.Sandbox.inspect_args problem_verifier.Sandbox.remove_args
    problem_verifier.Sandbox.container_name problem_verifier.Sandbox.docker
    problem_verifier.Sandbox.docker_done problem_verifier.Sandbox.run_and_inspect
    problem_verifier.Sandbox.remove_container problem_verifier.Sandbox.run_sandbox
    problem_verifier.Compile.flags_for problem_verifier.Compile.source_args
    problem_verifier.Compile.stage_files problem_verifier.Compile.timeout_note
    problem_verifier.Compile.compile_failed problem_verifier.Compile.text_or
    problem_verifier.Compile.non_empty_lines problem_verifier.Compile.stage_sources
    problem_verifier.Compile.compile_spec problem_verifier.Compile.run_spec
    problem_verifier.Compile.compile_language problem_verifier.Compile.compile_solution
    problem_verifier.Compare.tolerance_flags problem_verifier.Compare.bool_flags
    problem_verifier.Compare.compare_floats problem_verifier.Compare.set_bool_flag
    problem_verifier.Compare.parse_flags_from problem_verifier.Compare.parse_compare_flags
    problem_verifier.Compare.numbers_match problem_verifier.Compare.floats_match
    problem_verifier.Compare.fold_case problem_verifier.Compare.token_matches
    problem_verifier.Compare.first_mismatch problem_verifier.Compare.compare_tokens
    problem_verifier.Compare.strip_newlines problem_verifier.Compare.compare_exact
    problem_verifier.Compare.compare_output problem_verifier.Results.str_of_int
    problem_verifier.Results.classify_run problem_verifier.Results.judged
    problem_verifier.Results.first_rejected problem_verifier.Results.solution_verdict
    problem_verifier.Results.matches_expectation problem_verifier.Judge.RunPair.oom_note
    problem_verifier.Judge.Run.describe_missing_run_result
    problem_verifier.Judge.Run.read_stderr_tail problem_verifier.Judge.Run.load_json
    problem_verifier.Judge.Run.run_one_spec problem_verifier.Judge.Run.ensure_output
    problem_verifier.Judge.Run.collect_run problem_verifier.Judge.Run.prepare_run
    problem_verifier.Judge.Run.run_one_testcase problem_verifier.Judge.Cases.with_stderr
    problem_verifier.Judge.Cases.stderr_label problem_verifier.Judge.Cases.validator_stderr_label
    problem_verifier.Judge.Cases.add_judgemessage problem_verifier.Judge.Cases.compare_run
    problem_verifier.Judge.Cases.judge_plain problem_verifier.Judge.Cases.judge_case
    problem_verifier.Judge.Cases.judge_cases problem_verifier.Judge.Solve.validator_log
    problem_verifier.Judge.Solve.try_build problem_verifier.Judge.Solve.make_checker
    problem_verifier.Judge.Solve.compile_and_judge problem_verifier.Judge.Solve.judge_solution
    problem_verifier.Judge.Factor.float_of_stdout problem_verifier.Judge.Factor.median
    problem_verifier.Judge.Factor.divide problem_verifier.Judge.Factor.bench_spec
    problem_verifier.Judge.Factor.take_samples problem_verifier.Judge.Factor.measure_machine_factor
    problem_verifier.Languages.value problem_verifier.Languages.extensions
    problem_verifier.Languages.find_extension problem_verifier.Languages.language_of
    problem_verifier.Solutions.is_safe_char problem_verifier.Solutions.sanitize_name
    problem_verifier.Solutions.posix problem_verifier.Solutions.find_main_py
    problem_verifier.Solutions.python_entry problem_verifier.Solutions.collect_languages
    problem_verifier.Solutions.sources_of problem_verifier.Solutions.describe_sources
    problem_verifier.Solutions.describe_unit problem_verifier.Solutions.walk_units
    problem_verifier.Solutions.walk_children problem_verifier.Solutions.discover_solutions
    problem_verifier.Cli.find_solution problem_verifier.Cli.required_flags
    problem_verifier.Cli.default_image problem_verifier.Cli.judge_in_temporary
    problem_verifier.Cli.store_report problem_verifier.Cli.write_report
    problem_verifier.Cli.judge_planned problem_verifier.Cli.plan_machine
    problem_verifier.Cli.run_judge problem_verifier.Cli.main problem_verifier.Cpu.range_from
    problem_verifier.Cpu.range_incl problem_verifier.Cpu.range_end problem_verifier.Cpu.parse_range
    problem_verifier.Cpu.parse_part problem_verifier.Cpu.parse_parts
    problem_verifier.Cpu.parse_cpu_list problem_verifier.Cpu.missing_flags
    problem_verifier.Cpu.check_arch_and_flags problem_verifier.Cpu.plan_last_core
    problem_verifier.Cpu.plan_one_core problem_verifier.Cpu.plan_cores
    problem_verifier.Cpu.plan_requested problem_verifier.Cpu.plan_cpu
    problem_verifier.Cpu.apply_offline problem_verifier.Cpu.apply_cpu_plan
    problem_verifier.Cpu.Read.is_cpu_name problem_verifier.Cpu.Read.put
    problem_verifier.Cpu.Read.lines_of problem_verifier.Cpu.Read.flags_of_line
    problem_verifier.Cpu.Read.find_flags problem_verifier.Cpu.Read.read_text
    problem_verifier.Cpu.Read.read_entry problem_verifier.Cpu.Read.read_entries
    problem_verifier.Cpu.Read.read_topology problem_verifier.Cpu.Read.read_cpu_flags
    problem_verifier.ProblemConfig.candidates problem_verifier.ProblemConfig.find_validator_dir
    problem_verifier.ProblemConfig.Load.type_error_text
    problem_verifier.ProblemConfig.Load.read_yaml problem_verifier.ProblemConfig.Load.top_level
    problem_verifier.ProblemConfig.Load.limits_of problem_verifier.ProblemConfig.Load.mode_of
    problem_verifier.ProblemConfig.Load.flags_source problem_verifier.ProblemConfig.Load.flags_of
    problem_verifier.ProblemConfig.Load.format_of problem_verifier.ProblemConfig.Load.config_with
    problem_verifier.ProblemConfig.Load.config_of
    problem_verifier.ProblemConfig.Load.load_problem_config problem_verifier.TestData.with_suffix
    problem_verifier.TestData.is_input problem_verifier.TestData.test_case
    problem_verifier.TestData.collect_cases problem_verifier.TestData.input_files
    problem_verifier.TestData.collect_testcases problem_verifier.TimeLimits.span_digits
    problem_verifier.TimeLimits.match_number problem_verifier.TimeLimits.float_or_raise
    problem_verifier.TimeLimits.term_to_seconds problem_verifier.TimeLimits.max_of
    problem_verifier.TimeLimits.min_of problem_verifier.TimeLimits.overshoot_of
    problem_verifier.TimeLimits.make_time_limits problem_verifier.Verdicts.name
    problem_verifier.Verdicts.expected_verdicts problem_verifier.Verdicts.summary_icon
main_run = refl
