-- ===== src/Examples/Solving.antt =====
-- The judge of a solution, on the problem of Examples.Judging.
use problem_verifier.Prelude.{
  ℕ, Bool, true, inl, inr, List, [], ◌∷◌, ◌++◌, map, codes, Str, Bytes, arith, Option, none, some,
  length, ◌==◌, if◌then◌else◌, pos, take, get_elem?,
}
use problem_verifier.Prelude.Result.{ok}
use problem_verifier.Json.{Json, bool, int, float, object, Members, end, member}
use problem_verifier.Runtime.Thousandths.{milli}
use problem_verifier.Files.{Files, FilePath, Node, file, directory}
use problem_verifier.Languages.{Language}
use problem_verifier.Verdicts.{wrong_answer, not_run}
use problem_verifier.Results.{TestCaseResult, SolutionResult}
use problem_verifier.Solutions.{Solution}
use problem_verifier.Sandbox.{SandboxSpec}
use problem_verifier.Judge.{JudgeOptions}
use problem_verifier.Judge.Cases.{Setting, by_comparison}
use problem_verifier.Judge.Solve.{setting_of}
use problem_verifier.Compile.{CompileOptions, CompileOutcome}
use problem_verifier.Examples.Judging.{J, results, work_root}

abbrev report : SolutionResult J
report = record {
  name = codes "a.py";
  rel_path = codes "a.py";
  expected = codes "accepted";
  language = codes "python";
  verdict = wrong_answer;
  testcases = results;
  compile_log = codes "main";
  machine_factor = milli 1000;
  cpu_isolated = true;
  warnings = [];
}

abbrev compile_options : CompileOptions J
compile_options = record { image = codes "icpc"; cpuset = 1; flags = []; timeout = milli 120000 }

abbrev compiled : CompileOutcome
compiled = record {
  ok = true;
  log = codes "main";
  work_dir = work_root;
  run_argv = codes "main" ∷ [];
}
