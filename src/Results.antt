-- ===== src/Results.antt =====
-- src/icpc_verify/results.py.
pub mod Classify
pub mod Aggregate
pub mod Expectation
use problem_verifier.Prelude.{
  ℕ, ◌+◌, Bool, true, false, not, ◌||◌, List, [], ◌∷◌, ◌++◌, Str, codes, ℤ, pos, negsuc, str_of_nat,
  if◌then◌else◌, ◌==◌, nat_eq, int_eq, list_eq, filter,
}
use problem_verifier.Prelude.Result.{Result, ok, err, value_error}
use problem_verifier.Runtime.{Runtime}
use problem_verifier.TimeLimits.{TimeLimits}
use problem_verifier.Verdicts.{
  Verdict, accepted, wrong_answer, time_limit_exceeded, run_time_error, judge_error, not_run,
  verdict_eq, name,
}

-- `str(n)` of an `int`
unfoldable pub str_of_int : ℤ → Str
unfolding str_of_nat
str_of_int (pos n) = str_of_nat n
str_of_int (negsuc n) = codes "-" ++ str_of_nat (n + 1)

module _ (R : Runtime) where
  pub record RunMeasurement : Type 0 where
    pub wall : R.Float
    pub cpu : R.Float
    pub max_rss_kib : ℕ
    pub exit_code : ℤ
    pub signal : ℕ
    pub timed_out : Bool
    pub output_limit_exceeded : Bool
    pub oom_killed : Bool

  pub record TestCaseResult : Type 0 where
    pub id : Str
    pub group : Str
    pub verdict : Verdict
    pub wall : R.Float
    pub cpu : R.Float
    pub mem_kib : ℕ
    pub exit_code : ℤ
    pub message : Str

  pub record SolutionResult : Type 0 where
    pub name : Str
    pub rel_path : Str
    pub expected : Str
    pub language : Str
    pub verdict : Verdict
    pub testcases : List TestCaseResult
    pub compile_log : Str
    pub machine_factor : R.Float
    pub cpu_isolated : Bool
    pub warnings : List Str

  -- The texts stand apart from the tests, so that proofs about the tests do not open them.
  unfoldable pub over_limit_message : R.Float → R.Float → Str
  over_limit_message wall limit =
      codes "wall "
      ++ (R.fixed3 wall ++ (codes "s 가 시간제한 " ++ (R.fixed3 limit ++ codes "s 를 넘었습니다")))

  unfoldable pub output_limit_message : Str
  output_limit_message = codes "OLE. 출력이 제한을 넘었습니다"

  unfoldable pub memory_limit_message : Str
  memory_limit_message = codes "메모리 제한을 넘어 kill 되었습니다"

  unfoldable pub signal_message : ℕ → Str
  signal_message signal = codes "signal " ++ (str_of_nat signal ++ codes " 로 종료했습니다")

  unfoldable pub exit_code_message : ℤ → Str
  exit_code_message exit_code = codes "exit code " ++ (str_of_int exit_code ++ codes " 로 종료했습니다")

  unfoldable pub classify_run : RunMeasurement → TimeLimits R → Bool → Str → Verdict × Str
  classify_run m limits compare_ok compare_message =
      if m.timed_out || R.lt limits.limit m.wall
      then (time_limit_exceeded, over_limit_message m.wall limits.limit)
      else if m.output_limit_exceeded
      then (wrong_answer, output_limit_message)
      else if m.oom_killed
      then (run_time_error, memory_limit_message)
      else if not (m.signal == 0)
      then (run_time_error, signal_message m.signal)
      else if not (m.exit_code == pos 0)
      then (run_time_error, exit_code_message m.exit_code)
      else if not compare_ok
      then (wrong_answer, compare_message)
      else (accepted, [])

  -- `judged`, then the first of it that is not accepted.
  unfoldable pub judged : List TestCaseResult → List TestCaseResult
  judged testcases = filter (λ c. not (c.verdict == not_run)) testcases

  unfoldable pub first_rejected : List TestCaseResult → Verdict
  first_rejected [] = accepted
  first_rejected (case ∷ cases) =
      let rest = first_rejected cases in
      if not (case.verdict == accepted) then case.verdict else rest

  abbrev pub verdict_of_judged : List TestCaseResult → Verdict
  verdict_of_judged [] = judge_error
  verdict_of_judged (case ∷ cases) = first_rejected (case ∷ cases)

  unfoldable pub solution_verdict : List TestCaseResult → Verdict
  unfolding judged first_rejected
  solution_verdict testcases = verdict_of_judged (judged testcases)

unfoldable pub matches_expectation : Str → Str → Str → Result Bool
matches_expectation expected actual mode =
    if mode == codes "exact"
    then ok (expected == actual)
    else if mode == codes "any-rejected"
    then (if expected == name accepted
        then ok (actual == name accepted)
        else ok (not (actual == name accepted)))
    else err value_error
