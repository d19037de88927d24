-- ===== src/Interactive.antt =====
-- The results of image/interactive_runner.py and image/runner.py as src/icpc_verify/judge.py reads
-- them, and `_classify_interactive`.
pub mod Classify
use problem_verifier.Prelude.{
  ℕ, ◌*◌, Bool, true, false, not, ◌&&◌, ◌||◌, List, [], ◌∷◌, ◌++◌, Str, codes, ℤ, pos,
  if◌then◌else◌, ◌==◌, nat_eq, int_eq, ltb,
}
use problem_verifier.Prelude.Result.{Result, ok, err, ◌>>=◌}
use problem_verifier.Json.{Json, get_item, as_bool, as_int, as_nat, as_float}
use problem_verifier.Runtime.{Runtime}
use problem_verifier.TimeLimits.{TimeLimits}
use problem_verifier.Results.{
  RunMeasurement, over_limit_message, signal_message, exit_code_message, str_of_int,
}
use problem_verifier.Verdicts.{
  Verdict, accepted, wrong_answer, time_limit_exceeded, run_time_error, judge_error,
}

abbrev pub sigpipe : ℕ
sigpipe = 13

module _ (R : Runtime) where
  pub record SolutionRun : Type 0 where
    pub wall : R.Float
    pub cpu : R.Float
    pub max_rss_kib : ℕ
    pub exit_code : ℤ
    pub signal : ℕ
    pub timed_out : Bool

  pub record PairRun : Type 0 where
    pub solution : SolutionRun
    pub validator_exit : ℤ
    pub pair_timed_out : Bool

  abbrev pub item : {A : Type 0} → Str → (Json R.Float → Result A) → Json R.Float → Result A
  item key read raw = get_item key raw >>= read

  -- `raw["solution"]` and the items of it that are used
  unfoldable pub read_solution_run : Json R.Float → Result SolutionRun
  read_solution_run sol = do
    wall ← item (codes "wall") as_float sol
    cpu ← item (codes "cpu") as_float sol
    max_rss_kib ← item (codes "max_rss_kib") as_nat sol
    exit_code ← item (codes "exit_code") as_int sol
    signal ← item (codes "signal") as_nat sol
    timed_out ← item (codes "timed_out") as_bool sol
    ok (record {
      wall = wall;
      cpu = cpu;
      max_rss_kib = max_rss_kib;
      exit_code = exit_code;
      signal = signal;
      timed_out = timed_out;
    })

  unfoldable pub read_pair_run : Json R.Float → Result PairRun
  read_pair_run raw = do
    sol ← get_item (codes "solution") raw
    solution ← read_solution_run sol
    validator_exit ← item (codes "validator_exit") as_int raw
    pair_timed_out ← item (codes "pair_timed_out") as_bool raw
    ok (record {
      solution = solution;
      validator_exit = validator_exit;
      pair_timed_out = pair_timed_out;
    })

  -- The measurement of a run with no interaction; `oom_killed` is the container's.
  unfoldable pub read_measurement : Json R.Float → Bool → Result (RunMeasurement R)
  read_measurement raw oom_killed = do
    run ← read_solution_run raw
    output_limit_exceeded ← item (codes "output_limit_exceeded") as_bool raw
    ok (record {
      wall = run.wall;
      cpu = run.cpu;
      max_rss_kib = run.max_rss_kib;
      exit_code = run.exit_code;
      signal = run.signal;
      timed_out = run.timed_out;
      output_limit_exceeded = output_limit_exceeded;
      oom_killed = oom_killed;
    })

  unfoldable pub pair_timeout_message : R.Float → R.Float → Str
  pair_timeout_message wall limit =
      codes "validator 가 pair timeout 안에 끝나지 않았습니다 (solution wall "
      ++ (R.fixed3 wall ++ (codes "s <= 시간제한 " ++ (R.fixed3 limit ++ codes "s)")))

  unfoldable pub validator_exit_message : ℤ → Str
  validator_exit_message exit_code = codes "validator exit code " ++ str_of_int exit_code

  unfoldable pub max_rss_message : Str
  max_rss_message = codes "메모리 제한을 넘었습니다 (max RSS 기준)"

  abbrev pub over_limit : SolutionRun → TimeLimits R → Bool
  over_limit sol limits = sol.timed_out || R.lt limits.limit sol.wall

  abbrev pub is_decision : ℤ → Bool
  is_decision exit_code = exit_code == pos 42 || exit_code == pos 43

  unfoldable pub classify_interactive : PairRun → TimeLimits R → ℕ → Verdict × Str
  classify_interactive raw limits memory_mib =
      let sol = raw.solution in
      if raw.pair_timed_out && not (over_limit sol limits)
      then (judge_error, pair_timeout_message sol.wall limits.limit)
      else if raw.pair_timed_out || over_limit sol limits
      then (time_limit_exceeded, over_limit_message R sol.wall limits.limit)
      else if not (is_decision raw.validator_exit)
      then (judge_error, validator_exit_message raw.validator_exit)
      else if ltb (memory_mib * 1024) sol.max_rss_kib
      then (run_time_error, max_rss_message)
      else if not (sol.signal == 0 || sol.signal == sigpipe)
      then (run_time_error, signal_message R sol.signal)
      else if sol.signal == 0 && not (sol.exit_code == pos 0)
      then (run_time_error, exit_code_message R sol.exit_code)
      else if raw.validator_exit == pos 42
      then (accepted, [])
      else (wrong_answer, [])
