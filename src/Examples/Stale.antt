-- ===== src/Examples/Stale.antt =====
-- A testcase whose container does nothing, after an earlier one has left a run.json behind.
use problem_verifier.Prelude.{
  Bool, true, false, ◌≡◌, refl, List, [], ◌∷◌, ◌++◌, codes, pos, Option, none, some, list_eq,
  nat_eq,
}
use problem_verifier.Prelude.Result.{ok}
use problem_verifier.Files.{Files, FilePath, Node, file, directory}
use problem_verifier.Compare.Flags.{flags_of}
use problem_verifier.Verdicts.{judge_error}
use problem_verifier.Results.{TestCaseResult}
use problem_verifier.World.{completed, Engine, World}
use problem_verifier.Judge.Run.{describe_missing_run_result}
use problem_verifier.Judge.Cases.{Setting, by_comparison, blank_result, judge_case}
use problem_verifier.Judge.Solve.{setting_of}
use problem_verifier.Judge.Unmeasured.{judge_case-unmeasured}
use problem_verifier.Examples.Judging.{J, work_root, out_dir, case_named, config, limits, options}

abbrev mute : Engine J
mute = record {
  State = Unit;
  call = λ args timeout s files. (completed (pos 0) [] [], s, files);
  fresh = λ s. (codes "00", s);
  user = codes "1000:1000";
}

abbrev setting : Setting mute
setting = setting_of mute config limits work_root options (codes "main" ∷ [])

abbrev stale : World mute
stale = record {
  files =
      (out_dir ++ codes "run.json" ∷ [], file (codes "clean"))
      ∷ (out_dir ++ codes "stdout" ∷ [], file (codes "3"))
      ∷ (codes "data" ∷ codes "1.in" ∷ [], file (codes "1 2"))
      ∷ (codes "data" ∷ codes "1.ans" ∷ [], file (codes "3"))
      ∷ [];
  engine = tt;
  calls = [];
}

abbrev unmeasured : TestCaseResult J
unmeasured = blank_result J judge_error (describe_missing_run_result J []) (case_named (codes "1"))

stale_run :
    (judge_case mute setting
      (by_comparison (flags_of J false false none none))
      (case_named (codes "1"))
      stale).0
    ≡ ok unmeasured
unfolding list_eq problem_verifier.Verdicts.verdict_eq problem_verifier.Prelude.int_eq
    problem_verifier.Prelude.split problem_verifier.Prelude.lstrip problem_verifier.Files.lookup
    problem_verifier.Files.is_file problem_verifier.Files.read_bytes problem_verifier.Files.is_under
    problem_verifier.Files.rmtree problem_verifier.Files.write_bytes problem_verifier.Files.add_dir
    problem_verifier.Files.mkdir problem_verifier.Files.copy_file problem_verifier.Files.fresh_dir
    problem_verifier.Json.find_member problem_verifier.Json.get_item problem_verifier.Json.as_bool
    problem_verifier.Json.as_int problem_verifier.Json.as_nat problem_verifier.Json.as_float
    problem_verifier.Interactive.read_solution_run problem_verifier.Interactive.read_measurement
    problem_verifier.Sandbox.parse_oom_killed problem_verifier.Sandbox.container_name
    problem_verifier.Sandbox.docker problem_verifier.Sandbox.docker_done
    problem_verifier.Sandbox.run_and_inspect problem_verifier.Sandbox.remove_container
    problem_verifier.Sandbox.run_sandbox problem_verifier.Compare.compare_floats
    problem_verifier.Compare.fold_case problem_verifier.Compare.token_matches
    problem_verifier.Compare.token_message problem_verifier.Compare.first_mismatch
    problem_verifier.Compare.compare_tokens problem_verifier.Compare.compare_output
    problem_verifier.Results.str_of_int problem_verifier.Results.exit_code_message
    problem_verifier.Results.classify_run problem_verifier.Judge.Run.load_json
    problem_verifier.Judge.Run.run_one_spec problem_verifier.Judge.Run.ensure_output
    problem_verifier.Judge.Run.collect_run problem_verifier.Judge.Run.prepare_run
    problem_verifier.Judge.Run.run_one_testcase problem_verifier.Judge.Cases.add_judgemessage
    problem_verifier.Judge.Cases.compare_run problem_verifier.Judge.Cases.judge_plain
    problem_verifier.Judge.Cases.judge_interactive problem_verifier.Judge.Cases.judge_case
    problem_verifier.Judge.Cases.judge_cases
stale_run = refl

judge_case-unmeasured_example : unmeasured.verdict ≡ judge_error
judge_case-unmeasured_example =
    judge_case-unmeasured mute setting (by_comparison (flags_of J false false none none))
      (case_named (codes "1")) stale (λ args timeout s files h. h) stale_run
