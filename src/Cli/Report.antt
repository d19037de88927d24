-- ===== src/Cli/Report.antt =====
-- What `main` of src/icpc_verify/cli.py leaves behind with each exit code.
use problem_verifier.Prelude.{
  ℕ, Bool, ◌≡◌, refl, ◌⊎◌, inl, inr, List, [], ◌++◌, Str, Bytes, arith, list_eq, nat_eq,
}
use problem_verifier.Prelude.Result.{Result, ok, err}
use problem_verifier.Runtime.{Runtime}
use problem_verifier.Files.{Files, FilePath, read_bytes, write_bytes, ensure_dir, parent, lookup}
use problem_verifier.TimeLimits.{TimeLimits, make_time_limits}
use problem_verifier.TestData.{TestCase, collect_testcases}
use problem_verifier.Solutions.{Solution, discover_solutions}
use problem_verifier.ProblemConfig.{ProblemConfig}
use problem_verifier.ProblemConfig.Load.{Yaml, load_problem_config}
use problem_verifier.Cpu.{CpuPlan, apply_cpu_plan}
use problem_verifier.Results.{SolutionResult, matches_expectation}
use problem_verifier.Verdicts.{name}
use problem_verifier.World.{Engine, World, change_files}
use problem_verifier.Steps.{bind_ended, Leaves, Leaves-then}
use problem_verifier.Judge.Factor.{measure_machine_factor}
use problem_verifier.Cli.{
  Arguments, Machine, exit_code, exit_config, image_of, options_of, find_solution,
  judge_in_temporary, store_report, write_report, judge_planned, plan_machine, run_judge, caught,
  main,
}

read_bytes-write_bytes :
    (p : FilePath) (data' : Bytes) (files : Files)
    → read_bytes p (write_bytes p data' files) ≡ ok data'
unfolding read_bytes write_bytes lookup
read_bytes-write_bytes p data' files = ground arith

module _ {R : Runtime} (E : Engine R) (Y : Yaml R) (machine : Machine R) (args : Arguments R) where
  -- The report of a result stands in its file, and the exit code says if the expectation was met.
  abbrev pub IsReported : ℕ → World E → Type 0
  IsReported code w =
      (result : SolutionResult R) × (limits : TimeLimits R) × (expectation_met : Bool)
      × (matches_expectation result.expected (name result.verdict) args.verdict_match
          ≡ ok expectation_met)
      × (read_bytes args.output w.files
          ≡ ok (machine.payload result expectation_met limits.limit limits.hard_kill))
      × (code ≡ exit_code expectation_met)

  abbrev Left : Result ℕ × World E → Type 0
  Left = Leaves IsReported

  store_report-Left :
      (limits : TimeLimits R) (result : SolutionResult R) (met : Bool) (w : World E)
      → matches_expectation result.expected (name result.verdict) args.verdict_match ≡ ok met
      → Left (store_report E Y machine args limits result met w)
  unfolding store_report
  store_report-Left limits result met w e =
      Leaves-then IsReported (change_files (ensure_dir (parent args.output) w.files) w) _ λ done w'.
        (
          result,
          limits,
          met,
          e,
          read_bytes-write_bytes args.output
              (machine.payload result met limits.limit limits.hard_kill) w'.files,
          refl,
        )

  Left-stored :
      (limits : TimeLimits R) (result : SolutionResult R) (w : World E) (met : Result Bool)
      → matches_expectation result.expected (name result.verdict) args.verdict_match ≡ met
      → Left (bind_ended (met, w) (store_report E Y machine args limits result))
  Left-stored limits result w (ok met) e = store_report-Left limits result met w e
  Left-stored limits result w (err x) e = tt

  write_report-Left :
      (limits : TimeLimits R) (result : SolutionResult R) (w : World E)
      → Left (write_report E Y machine args limits result w)
  unfolding write_report
  write_report-Left limits result w = Left-stored limits result w _ refl

  judge_planned-Left :
      (config : ProblemConfig R) (limits : TimeLimits R) (testcases : List TestCase)
      (solution : Solution) (warnings : List Str) (plan : CpuPlan) (w : World E)
      → Left (judge_planned E Y machine args config limits testcases solution warnings plan w)
  unfolding judge_planned
  judge_planned-Left config limits testcases solution warnings plan w =
      let all_warnings = warnings ++ (plan.warnings ++ apply_cpu_plan machine.set_offline plan) in
      Leaves-then IsReported (image_of E Y machine args.image w.files, w) _
        λ image w1.
          Leaves-then IsReported (measure_machine_factor E image plan.judge_cpu 3 w1) _ λ factor w2.
            Leaves-then IsReported
              (judge_in_temporary E Y machine config solution testcases limits
                (options_of E Y machine args config image plan factor all_warnings) w2)
              _ λ result w3. write_report-Left limits result w3

  run_judge-Left : (w : World E) → Left (run_judge E Y machine args w)
  unfolding run_judge
  run_judge-Left w =
      Leaves-then IsReported
        (
          load_problem_config Y args.problem_dir w.files args.default_time_limit
              args.default_memory_mib,
          w,
        )
        _
        λ config w1.
          Leaves-then IsReported (make_time_limits R config.time_limit args.timelimit_overshoot, w1)
            _
            λ limits w2.
              Leaves-then IsReported (collect_testcases args.problem_dir w2.files, w2) _
                λ testcases w3.
                  let (solutions, warnings) = discover_solutions R w3.files args.problem_dir [] in
                  Leaves-then IsReported (find_solution args.solution solutions, w3) _
                    λ solution w4.
                      Leaves-then IsReported (plan_machine E Y machine args w4) _ λ plan w5.
                        judge_planned-Left config limits testcases solution warnings plan w5

  caught-Left :
      (outcome : Result ℕ × World E)
      → Left outcome
      → ((caught E Y machine outcome).0 ≡ exit_config)
        ⊎ IsReported (caught E Y machine outcome).0 (caught E Y machine outcome).1
  caught-Left (ok code, w) h = inr h
  caught-Left (err e, w) h = inl refl

  -- The program ends with exit code 2, or with the report of a result in the output file, which says
  -- whether the verdict matches the expectation, and with exit code 0 if it does and 1 if it does not.
  pub main-IsReported :
      (w : World E)
      → ((main E Y machine args w).0 ≡ exit_config)
        ⊎ IsReported (main E Y machine args w).0 (main E Y machine args w).1
  unfolding main
  main-IsReported w = caught-Left (run_judge E Y machine args w) (run_judge-Left w)
