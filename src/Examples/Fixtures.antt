-- ===== src/Examples/Fixtures.antt =====
-- The runtime, the limits and the runs that the examples share.
use problem_verifier.Prelude.{Bool, false, Option, none, Bytes, codes, pos, ℤ, ℕ, []}
use problem_verifier.Json.{Json}
use problem_verifier.Runtime.{Runtime}
use problem_verifier.Runtime.Thousandths.{Number, milli}
use problem_verifier.Runtime.Milli.{MilliRuntime}
use problem_verifier.TimeLimits.{TimeLimits}
use problem_verifier.Results.{RunMeasurement, TestCaseResult}
use problem_verifier.Verdicts.{Verdict}

abbrev pub no_json : Bytes → Option (Json Number)
no_json data' = none

abbrev pub R : Runtime
R = MilliRuntime no_json

abbrev pub two_seconds : TimeLimits R
two_seconds = record { limit = milli 2000; overshoot = milli 500; hard_kill = milli 2500 }

abbrev pub run_of : ℕ → ℕ → ℤ → Bool → RunMeasurement R
run_of wall signal exit_code output_limit_exceeded = record {
  wall = milli wall;
  cpu = milli wall;
  max_rss_kib = 1000;
  exit_code = exit_code;
  signal = signal;
  timed_out = false;
  output_limit_exceeded = output_limit_exceeded;
  oom_killed = false;
}

abbrev pub case_result : Verdict → TestCaseResult R
case_result verdict = record {
  id = codes "1";
  group = codes "secret";
  verdict = verdict;
  wall = milli 100;
  cpu = milli 90;
  mem_kib = 1000;
  exit_code = pos 0;
  message = [];
}
