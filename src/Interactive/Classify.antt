-- ===== src/Interactive/Classify.antt =====
-- Who is to blame: the verdicts of `_classify_interactive` in the order that its comment gives.
use problem_verifier.Prelude.{ℕ, ◌*◌, ◌≤◌, true, false, ◌≡◌, ◌↔◌, ◌⊎◌, pos, arith, nat_eq, int_eq}
use problem_verifier.Runtime.{Runtime}
use problem_verifier.TimeLimits.{TimeLimits}
use problem_verifier.Verdicts.{accepted, wrong_answer, judge_error}
use problem_verifier.Interactive.{PairRun, sigpipe, classify_interactive}

module _ (R : Runtime) (raw : PairRun R) (limits : TimeLimits R) (memory_mib : ℕ) where
  -- The solution was stopped at the hard kill, or measured above the limit.
  abbrev pub SolutionSlow : Type 0
  SolutionSlow = (raw.solution.timed_out ≡ true) ⊎ (R.lt limits.limit raw.solution.wall ≡ true)

  -- The solution stayed within its memory and ended by itself with exit code 0, or by a broken pipe.
  abbrev pub SolutionSound : Type 0
  SolutionSound =
      (raw.solution.max_rss_kib ≤ memory_mib * 1024)
      × (((raw.solution.signal ≡ 0) × (raw.solution.exit_code ≡ pos 0))
          ⊎ (raw.solution.signal ≡ sigpipe))

  -- The validator decided.
  abbrev pub Decided : Type 0
  Decided = (raw.validator_exit ≡ pos 42) ⊎ (raw.validator_exit ≡ pos 43)

  -- The validator is blamed exactly when the solution was not slow and the validator either ran into the
  -- pair timeout or ended without a decision; how the solution ended does not count then.
  pub classify_interactive-blame_iff :
      ((classify_interactive R raw limits memory_mib).0 ≡ judge_error)
      ↔ ((¬ SolutionSlow) × ((raw.pair_timed_out ≡ true) ⊎ (¬ Decided)))
  unfolding classify_interactive
  classify_interactive-blame_iff = (λ h. ground arith, λ h. ground arith)

  -- The answer is accepted, or wrong, exactly when nothing timed out, the solution was sound (a broken
  -- pipe is forgiven), and the validator said so.
  pub classify_interactive-decided_iff :
      (((classify_interactive R raw limits memory_mib).0 ≡ accepted) ↔ (
        (¬ SolutionSlow)
        × (raw.pair_timed_out ≡ false)
        × SolutionSound
        × (raw.validator_exit ≡ pos 42)))
      × (((classify_interactive R raw limits memory_mib).0 ≡ wrong_answer) ↔ (
          (¬ SolutionSlow)
          × (raw.pair_timed_out ≡ false)
          × SolutionSound
          × (raw.validator_exit ≡ pos 43)))
  unfolding classify_interactive
  classify_interactive-decided_iff =
      ((λ h. ground arith, λ h. ground arith), (λ h. ground arith, λ h. ground arith))
