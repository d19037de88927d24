-- ===== src/Judge/Solved.antt =====
-- What `judge_solution` of src/icpc_verify/judge.py reports of a solution.
use problem_verifier.Prelude.{Bool, ◌≡◌, ◌≢◌, ◌⊎◌, ◌↔◌, List, [], All, Both}
use problem_verifier.Runtime.{Runtime}
use problem_verifier.TestData.{TestCase}
use problem_verifier.TimeLimits.{TimeLimits}
use problem_verifier.Results.{TestCaseResult, SolutionResult}
use problem_verifier.ProblemConfig.{ProblemConfig}
use problem_verifier.Verdicts.{accepted, not_run, verdict_eq}
use problem_verifier.World.{World}
use problem_verifier.Judge.Loop.{IsCaseOf, IsAccepted, StopsAtFirst}

module _ (R : Runtime) where
  abbrev pub WasSkipped : TestCaseResult R → Type 0
  WasSkipped r = r.verdict ≡ not_run

  -- What a result says of the testcases: their order; when the solution is accepted; and which ran.
  abbrev pub IsReportOf : Bool → List TestCase → SolutionResult R → Type 0
  IsReportOf judge_all testcases result =
      Both (IsCaseOf R) testcases result.testcases
      × ((result.verdict ≡ accepted) ↔ ((testcases ≢ []) × All (IsAccepted R) result.testcases))
      × (All WasSkipped result.testcases ⊎ StopsAtFirst R judge_all result.testcases)
