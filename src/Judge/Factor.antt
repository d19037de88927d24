-- ===== src/Judge/Factor.antt =====
-- `measure_machine_factor` of src/icpc_verify/judge.py.
use problem_verifier.Prelude.{
  ℕ, zero, suc, ◌/◌, ◌%◌, ◌-◌, List, [], ◌∷◌, Option, none, some, Str, codes, if◌then◌else◌, ◌==◌,
  nat_eq, length, get_elem?, strip,
}
use problem_verifier.Prelude.Result.{Result, ok, err, value_error, zero_division_error}
use problem_verifier.Runtime.{Runtime}
use problem_verifier.Sorting.{sort_by}
use problem_verifier.World.{Engine, M}
use problem_verifier.Steps.{◌>>=◌, pure, lift}
use problem_verifier.Sandbox.{SandboxSpec, SandboxResult, run_sandbox}

module _ (R : Runtime) where
  abbrev float_or_error : Option R.Float → Result R.Float
  float_or_error none = err value_error
  float_or_error (some x) = ok x

  abbrev float_of_text : Option Str → Result R.Float
  float_of_text none = err value_error
  float_of_text (some content) = float_or_error (R.float_of (strip content))

  -- `float(result.stdout.decode().strip())`
  unfoldable pub float_of_stdout : SandboxResult → Result R.Float
  float_of_stdout result = float_of_text (R.decode_strict result.stdout)

  abbrev mean_of : Option R.Float → Option R.Float → Result R.Float
  mean_of (some x) (some y) = ok (R.div (R.add x y) (R.of_nat 2))
  mean_of _ _ = err value_error

  -- `statistics.median`: of no data a `StatisticsError`, which is a `ValueError`.
  unfoldable pub median : List R.Float → Result R.Float
  median samples =
      let sorted = sort_by R.le samples in
      let half = length samples / 2 in
      if length samples % 2 == 0
      then mean_of (get_elem? sorted (half - 1)) (get_elem? sorted half)
      else float_or_error (get_elem? sorted half)

  -- `x / y`, where a zero raises an exception
  unfoldable pub divide : R.Float → R.Float → Result R.Float
  divide x y = if R.eq y (R.of_nat 0) then err zero_division_error else ok (R.div x y)

module _ {R : Runtime} (E : Engine R) where
  unfoldable pub bench_spec : Str → ℕ → List Str → ℕ → SandboxSpec R
  bench_spec image cpuset argv seconds = record {
    image = image;
    cpuset = cpuset;
    memory_mib = 1024;
    binds = [];
    argv = argv;
    timeout = R.of_nat seconds;
    user = some E.user;
    workdir = none;
  }

  unfoldable pub take_samples : ℕ → Str → ℕ → M E (List R.Float)
  take_samples zero image cpuset = pure []
  take_samples (suc rounds) image cpuset = do
    result ← run_sandbox E (bench_spec image cpuset (codes "/usr/local/bin/bench" ∷ []) 120)
    sample ← lift (float_of_stdout R result)
    samples ← take_samples rounds image cpuset
    pure (sample ∷ samples)

  unfoldable pub measure_machine_factor : Str → ℕ → ℕ → M E R.Float
  measure_machine_factor image cpuset rounds = do
    reference_result ← run_sandbox E (
        bench_spec image cpuset (codes "cat" ∷ codes "/usr/local/lib/icpc/BENCH_REFERENCE" ∷ []) 60)
    reference ← lift (float_of_stdout R reference_result)
    samples ← take_samples rounds image cpuset
    middle ← lift (median R samples)
    lift (divide R middle reference)
