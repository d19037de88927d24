-- ===== src/Results/Expectation.antt =====
-- `matches_expectation` in its two modes.
use problem_verifier.Prelude.{true, ◌≡◌, ◌≢◌, ◌↔◌, ◌⊎◌, Str, codes, arith, list_eq, nat_eq}
use problem_verifier.Prelude.Result.{ok}
use problem_verifier.Verdicts.{accepted, name}
use problem_verifier.Results.{matches_expectation}

-- In the mode any-rejected a solution passes exactly when it is accepted as expected, or is rejected,
-- for any reason, where it was expected not to be accepted.
pub matches_expectation-any_iff :
    (expected actual : Str)
    → (matches_expectation expected actual (codes "any-rejected") ≡ ok true) ↔ (
        ((expected ≡ name accepted) × (actual ≡ name accepted))
        ⊎ ((expected ≢ name accepted) × (actual ≢ name accepted)))
unfolding matches_expectation
matches_expectation-any_iff expected actual = (λ h. ground arith, λ h. ground arith)

-- A solution that passes in the mode exact passes in the mode any-rejected too; and where acceptance
-- is expected the two modes say the same.
pub matches_expectation-exact-any :
    (expected actual : Str)
    → matches_expectation expected actual (codes "exact") ≡ ok true
    → (matches_expectation expected actual (codes "any-rejected") ≡ ok true)
      × (matches_expectation (name accepted) actual (codes "any-rejected")
          ≡ matches_expectation (name accepted) actual (codes "exact"))
unfolding matches_expectation
matches_expectation-exact-any expected actual h = (ground arith, ground arith)
