-- ===== src/Judge/Loop.antt =====
-- The loop of `judge_solution` over the testcases: which of them run, and the verdict of them all.
use problem_verifier.Prelude.{
  ℕ, zero, suc, Bool, true, false, ◌≡◌, refl, ◌↔◌, inl, inr, List, [], ◌∷◌, some, arith, Bool-cases,
  All, Both, get_elem?, take,
}
use problem_verifier.Prelude.Result.{ok}
use problem_verifier.Runtime.{Runtime}
use problem_verifier.TestData.{TestCase}
use problem_verifier.Results.{TestCaseResult}
use problem_verifier.Verdicts.{accepted, not_run, verdict_eq}
use problem_verifier.World.{Engine, World}
use problem_verifier.Steps.{Returns, of_Ensures, bind-Returns, ◌>>=◌, pure}
use problem_verifier.Judge.Cases.{Checker, Setting, skipped, stops, judge_case, judge_cases}
use problem_verifier.Judge.Returned.{IsResultOf, judge_case-IsResultOf}

module _ (R : Runtime) where
  abbrev pub IsCaseOf : TestCase → TestCaseResult R → Type 0
  IsCaseOf case r = (r.id ≡ case.id) × (r.group ≡ case.group)

  abbrev pub IsAccepted : TestCaseResult R → Type 0
  IsAccepted r = r.verdict ≡ accepted

  -- A testcase is left out exactly when not all are to be judged and an earlier one is not accepted.
  abbrev pub StopsAtFirst : Bool → List (TestCaseResult R) → Type 0
  StopsAtFirst judge_all rs =
      (k : ℕ) (r : TestCaseResult R)
      → get_elem? rs k ≡ some r
      → (r.verdict ≡ not_run) ↔ ((judge_all ≡ false) × ¬ All IsAccepted (take k rs))

module _ {R : Runtime} (E : Engine R) (s : Setting E) where
  -- The results as the loop lists them, from the flag `stopped` on.
  abbrev pub Follows : Bool → List TestCase → List (TestCaseResult R) → Type 0
  Follows stopped [] [] = Unit
  Follows stopped [] (r ∷ rs) = ⊥
  Follows stopped (case ∷ cases) [] = ⊥
  Follows true (case ∷ cases) (r ∷ rs) =
      (IsCaseOf R case r × (r.verdict ≡ not_run)) × Follows true cases rs
  Follows false (case ∷ cases) (r ∷ rs) = IsResultOf E s case r × Follows (stops E s r) cases rs

  pub judge_cases-Follows :
      (checker : Checker R) (cases : List TestCase) (stopped : Bool)
      → Returns (judge_cases E s checker cases stopped) (Follows stopped cases)
  unfolding judge_cases
  judge_cases-Follows checker [] stopped w = tt
  judge_cases-Follows checker (case ∷ cases) true w =
      bind-Returns (Follows true cases) (Follows true (case ∷ cases))
        (judge_cases E s checker cases true) (λ rs. pure (skipped R case ∷ rs))
        (judge_cases-Follows checker cases true) (λ rs h w. (((refl, refl), refl), h)) w
  judge_cases-Follows checker (case ∷ cases) false w =
      bind-Returns (IsResultOf E s case) (Follows false (case ∷ cases))
        (judge_case E s checker case)
        (λ r. judge_cases E s checker cases (stops E s r) >>= λ rs. pure (r ∷ rs))
        (judge_case-IsResultOf E s checker case)
        (λ r h.
          bind-Returns (Follows (stops E s r) cases) (Follows false (case ∷ cases))
            (judge_cases E s checker cases (stops E s r)) (λ rs. pure (r ∷ rs))
            (judge_cases-Follows checker cases (stops E s r)) λ rs k w. (h, k))
        w

  pub Follows-cases :
      (cases : List TestCase) (rs : List (TestCaseResult R)) (stopped : Bool)
      → Follows stopped cases rs
      → Both (IsCaseOf R) cases rs
  Follows-cases [] [] stopped h = tt
  Follows-cases [] (r ∷ rs) stopped h = h
  Follows-cases (case ∷ cases) [] stopped h = h
  Follows-cases (case ∷ cases) (r ∷ rs) true h = (h.0.0, Follows-cases cases rs true h.1)
  Follows-cases (case ∷ cases) (r ∷ rs) false h =
      ((h.0.0, h.0.1), Follows-cases cases rs (stops E s r) h.1)

  Follows-stopped :
      (cases : List TestCase) (rs : List (TestCaseResult R)) (k : ℕ) {r : TestCaseResult R}
      → Follows true cases rs
      → get_elem? rs k ≡ some r
      → r.verdict ≡ not_run
  Follows-stopped cases [] k h e = cc
  Follows-stopped [] (x ∷ rs) k h e = absurd h
  Follows-stopped (case ∷ cases) (x ∷ rs) zero h e = ground arith
  Follows-stopped (case ∷ cases) (x ∷ rs) (suc k) h e = Follows-stopped cases rs k h.1 e

  pub Follows-positions :
      (cases : List TestCase) (rs : List (TestCaseResult R))
      → Follows false cases rs
      → StopsAtFirst R s.options.judge_all rs
  Follows-positions cases [] h k r e = cc
  Follows-positions [] (x ∷ rs) h k r e = absurd h
  Follows-positions (case ∷ cases) (x ∷ rs) h zero r e = ground arith
  Follows-positions (case ∷ cases) (x ∷ rs) h (suc k) r e = elim (Bool-cases (stops E s x)) [
    | inl on ↦ let below = h.1 in ground (arith, Follows-stopped cases rs k (rw on at below) e)
    | inr off ↦
        let below = h.1 in ground (arith, Follows-positions cases rs (rw off at below) k r e)
  ]

  -- Of the results that the loop returns, one says that its testcase has not run exactly when `judge_all`
  -- is off and a result before it is not accepted; and there is one result for every testcase, in their
  -- order and with their ids and groups.
  pub judge_cases-stops_iff :
      (checker : Checker R) (cases : List TestCase) (w : World E) (k : ℕ)
      {rs : List (TestCaseResult R)} {r : TestCaseResult R}
      → (judge_cases E s checker cases false w).0 ≡ ok rs
      → get_elem? rs k ≡ some r
      → ((r.verdict ≡ not_run) ↔ ((s.options.judge_all ≡ false) × ¬ All (IsAccepted R) (take k rs)))
        × Both (IsCaseOf R) cases rs
  judge_cases-stops_iff checker cases w k {rs} {r} e found =
      let h =
        of_Ensures (Follows false cases) (judge_cases E s checker cases false w).0
          (judge_cases-Follows checker cases false w) e in
      (Follows-positions cases rs h k r found, Follows-cases cases rs false h)
