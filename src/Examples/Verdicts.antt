-- ===== src/Examples/Verdicts.antt =====
-- Verdicts of runs, of pairs and of solutions.
use problem_verifier.Prelude.{
  Bool, true, false, ◌≡◌, refl, ◌↔◌, ◌⊎◌, inl, [], ◌∷◌, ◌++◌, codes, pos, arith, nat_eq, list_eq,
  All,
}
use problem_verifier.Runtime.Thousandths.{milli}
use problem_verifier.Verdicts.{
  accepted, wrong_answer, run_time_error, time_limit_exceeded, judge_error, not_run,
}
use problem_verifier.Results.{classify_run, solution_verdict}
use problem_verifier.Results.Classify.{
  IsClean, IsSlow, IsCrash, classify_run-accepted_iff, classify_run-IsSlow_iff,
  classify_run-IsCrash_iff, classify_run-wrong_iff,
}
use problem_verifier.Results.Aggregate.{
  IsPassOrSkip, SomeJudged, solution_verdict-accepted_iff, solution_verdict-first,
}
use problem_verifier.Interactive.{PairRun, classify_interactive}
use problem_verifier.Interactive.Classify.{
  SolutionSlow, SolutionSound, Decided, classify_interactive-blame_iff,
  classify_interactive-decided_iff,
}
use problem_verifier.Examples.Fixtures.{R, two_seconds, run_of, case_result}

classify_run-accepted_iff_example :
    ((classify_run R (run_of 700 0 (pos 0) false) two_seconds true []).0 ≡ accepted)
    ↔ (IsClean R (run_of 700 0 (pos 0) false) two_seconds × (true ≡ true))
classify_run-accepted_iff_example =
    classify_run-accepted_iff R (run_of 700 0 (pos 0) false) two_seconds true []

classify_run-IsSlow_iff_example :
    ((classify_run R (run_of 2001 0 (pos 0) false) two_seconds true []).0 ≡ time_limit_exceeded)
    ↔ IsSlow R (run_of 2001 0 (pos 0) false) two_seconds
classify_run-IsSlow_iff_example =
    classify_run-IsSlow_iff R (run_of 2001 0 (pos 0) false) two_seconds true []

classify_run-IsCrash_iff_example :
    ((classify_run R (run_of 10 11 (pos 0) false) two_seconds true []).0 ≡ run_time_error) ↔ (
      (¬ IsSlow R (run_of 10 11 (pos 0) false) two_seconds)
      × (false ≡ false)
      × IsCrash R (run_of 10 11 (pos 0) false))
classify_run-IsCrash_iff_example =
    classify_run-IsCrash_iff R (run_of 10 11 (pos 0) false) two_seconds true []

classify_run-wrong_iff_example :
    ((classify_run R (run_of 10 0 (pos 0) true) two_seconds false (codes "no")).0 ≡ wrong_answer)
    ↔ (((¬ IsSlow R (run_of 10 0 (pos 0) true) two_seconds) × (true ≡ true))
        ⊎ (IsClean R (run_of 10 0 (pos 0) true) two_seconds
            × (false ≡ false)
            × ((classify_run R (run_of 10 0 (pos 0) true) two_seconds false (codes "no")).1
                ≡ codes "no")))
classify_run-wrong_iff_example =
    classify_run-wrong_iff R (run_of 10 0 (pos 0) true) two_seconds false (codes "no")

abbrev pair_of : Bool → PairRun R
pair_of pair_timed_out = record {
  solution = record {
    wall = milli 700;
    cpu = milli 600;
    max_rss_kib = 1000;
    exit_code = pos 1;
    signal = 13;
    timed_out = false;
  };
  validator_exit = pos 43;
  pair_timed_out = pair_timed_out;
}

classify_interactive-blame_iff_example :
    ((classify_interactive R (pair_of true) two_seconds 256).0 ≡ judge_error) ↔ (
      (¬ SolutionSlow R (pair_of true) two_seconds 256)
      × ((true ≡ true) ⊎ (¬ Decided R (pair_of true) two_seconds 256)))
classify_interactive-blame_iff_example =
    classify_interactive-blame_iff R (pair_of true) two_seconds 256

classify_interactive-decided_iff_example :
    (((classify_interactive R (pair_of false) two_seconds 256).0 ≡ accepted) ↔ (
      (¬ SolutionSlow R (pair_of false) two_seconds 256)
      × (false ≡ false)
      × SolutionSound R (pair_of false) two_seconds 256
      × (pos 43 ≡ pos 42)))
    × (((classify_interactive R (pair_of false) two_seconds 256).0 ≡ wrong_answer) ↔ (
        (¬ SolutionSlow R (pair_of false) two_seconds 256)
        × (false ≡ false)
        × SolutionSound R (pair_of false) two_seconds 256
        × (pos 43 ≡ pos 43)))
classify_interactive-decided_iff_example =
    classify_interactive-decided_iff R (pair_of false) two_seconds 256

solution_verdict-accepted_iff_example :
    (solution_verdict R (case_result accepted ∷ case_result not_run ∷ []) ≡ accepted) ↔ (
      SomeJudged R (case_result accepted ∷ case_result not_run ∷ [])
      × All (IsPassOrSkip R) (case_result accepted ∷ case_result not_run ∷ []))
solution_verdict-accepted_iff_example =
    solution_verdict-accepted_iff R (case_result accepted ∷ case_result not_run ∷ [])

solution_verdict-first_example :
    solution_verdict R
      ((case_result accepted ∷ []) ++ (case_result run_time_error ∷ case_result wrong_answer ∷ []))
    ≡ run_time_error
solution_verdict-first_example =
    solution_verdict-first R (case_result run_time_error) (case_result wrong_answer ∷ [])
      (ground arith) (ground arith) (case_result accepted ∷ []) (inl refl, tt)
