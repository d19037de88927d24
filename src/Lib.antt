-- ===== src/Lib.antt =====
-- A model of the judge of a problem archive in the formats of Kattis and DOMjudge, with the
-- theorems that make its verdicts right. The program collects the testcases and the solutions of a
-- problem, compiles each solution in a container, runs it on every testcase in a container of its
-- own, compares its output or asks the problem's validator, and sums up the verdicts.
--
-- Which file models which part:
-- - Verdicts, Results: src/icpc_verify/verdicts.py and results.py. `classify_run`,
--   `solution_verdict` and `matches_expectation` have the names they have in the program, as all
--   functions here do.
-- - TimeLimits: src/icpc_verify/timelimits.py, the notation of overshoots and `make_time_limits`.
-- - Compare: src/icpc_verify/compare.py, the flags and the two comparisons.
-- - TestData: src/icpc_verify/testdata.py. Solutions, Languages, JavaMain:
--   src/icpc_verify/solutions.py.
-- - ProblemConfig: src/icpc_verify/problemcfg.py. `load_problem_config` is in ProblemConfig.Load,
--   and the record `Yaml` there stands for PyYAML, shlex and the conversions of what a document
--   holds.
-- - Cpu: src/icpc_verify/cpu.py. Cpu.Read reads sysfs and /proc from the host's files.
-- - Sandbox: src/icpc_verify/sandbox.py. Compile: src/icpc_verify/compile.py.
-- - Validators: src/icpc_verify/validators.py.
-- - Interactive: the run.json of the two runners as it is read, and `_classify_interactive`, of
--   src/icpc_verify/judge.py. Judge: the rest of that file. Judge.Run and Judge.RunPair have the
--   two kinds of run of one testcase, Judge.Cases the loop over the testcases, Judge.Factor
--   `measure_machine_factor`, Judge.Solve `judge_solution`. Where the loop in the program goes by
--   two flags, for a validator and for interaction, `Checker` says which of the three ways it is.
-- - Cli: src/icpc_verify/cli.py, `run_judge` and `main` on parsed arguments; the record `Machine`
--   there stands for what the program asks of its host and for `json.dumps` of the report.
-- - Runner: image/runner.py. PairRunner: image/interactive_runner.py; PairRunner.Blame joins it
--   with `_classify_interactive`. Processes has what both ask of the operating system, and in
--   Processes.Loops the shape of their loops with a rule for invariants and one for termination;
--   Processes.Life is the protocol between a parent and a child, as a step relation.
-- - Containers: what all of this does to the calls of docker, from `run_sandbox` to `main`.
-- - Prelude, Splitting, Sorting, Json, Files, World, Steps, Runtime: what the parts share. Examples
--   applies the theorems, among them to a whole run of the judge.
--
-- Texts are lists of code points and bytes are lists of numbers. The host's files are an
-- association list of paths. A step of the program takes a world, of the files, the state of docker
-- and the calls of it so far, and returns a value or an exception together with the world it leaves
-- behind; an exception does not take back what was done before. `finally` runs its cleaning on both
-- ways out.
--
-- What is not in the repository is a parameter. `Runtime` stands for Python's floats, with their
-- parsing and formatting, for the Unicode tables, for fnmatch and for JSON; the laws that some
-- theorems assume of floats are those of Runtime.Laws, and Runtime.Milli is a runtime that has
-- them. `Engine` stands for the docker command, which may change the files and its own state in any
-- way, and may end with any exit code, by the timeout, or not be there at all. `Kernel` stands for
-- the operating system in the container: clock, processes, signals and the thread that watches the
-- output. It may change its state in any way at any call. That it also lets time pass is a
-- hypothesis of the theorems on termination, the record Processes.Clock.
--
-- All loops are over lists, except that decimal digits are written on fuel: `str_of_nat n` has n +
-- 1 of it, and a number has fewer digits than that; and that the loops of the two runners, which
-- wait for processes, have fuel for their rounds, one more than there are sleeps until the deadline
-- in image/runner.py, and two more in image/interactive_runner.py, where one round does not sleep.
--
-- Not modelled: permissions (`chmod`), times of files and symbolic links; `host.resolve()` of a
-- path that is bound, as paths are absolute; argument parsing and printing in
-- src/icpc_verify/cli.py; in the two runners the parsing of options, and the pipes and files that
-- are opened before the children are started and closed afterwards. The items of a pair's run.json
-- are read all at once, where the program reads each when it needs it. A memory limit and a CPU
-- number are not negative.
pub mod Examples
pub mod Prelude
pub mod Splitting
pub mod Sorting
pub mod Json
pub mod Runtime
pub mod Files
pub mod World
pub mod Sandbox
pub mod Languages
pub mod JavaMain
pub mod Solutions
pub mod Compile
pub mod ProblemConfig
pub mod TestData
pub mod Validators
pub mod Judge
pub mod Interactive
pub mod Verdicts
pub mod TimeLimits
pub mod Results
pub mod Cpu
pub mod Compare
pub mod Cli
pub mod Steps
pub mod Processes
pub mod Runner
pub mod PairRunner
pub mod Containers
