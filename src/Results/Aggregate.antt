-- ===== src/Results/Aggregate.antt =====
-- How `solution_verdict` sums up the testcases.
use problem_verifier.Prelude.{
  ◌≡◌, refl, ◌∙◌, ◌≢◌, ◌↔◌, ◌⊎◌, inl, inr, List, [], ◌∷◌, ◌++◌, arith, All,
}
use problem_verifier.Runtime.{Runtime}
use problem_verifier.Verdicts.{accepted, not_run, verdict_eq}
use problem_verifier.Results.{
  TestCaseResult, judged, first_rejected, verdict_of_judged, solution_verdict,
}

module _ (R : Runtime) where
  abbrev pub IsPassOrSkip : TestCaseResult R → Type 0
  IsPassOrSkip c = (c.verdict ≡ accepted) ⊎ (c.verdict ≡ not_run)

  abbrev pub WasJudged : TestCaseResult R → Type 0
  WasJudged c = c.verdict ≢ not_run

  -- Some testcase was judged.
  abbrev pub SomeJudged : List (TestCaseResult R) → Type 0
  SomeJudged [] = ⊥
  SomeJudged (c ∷ cs) = WasJudged c ⊎ SomeJudged cs

  first_rejected-judged-accepted :
      (cs : List (TestCaseResult R))
      → All IsPassOrSkip cs
      → first_rejected R (judged R cs) ≡ accepted
  unfolding judged first_rejected
  first_rejected-judged-accepted [] h = refl
  first_rejected-judged-accepted (c ∷ cs) h = ground (arith, first_rejected-judged-accepted cs h.1)

  first_rejected-judged_converse :
      (cs : List (TestCaseResult R))
      → first_rejected R (judged R cs) ≡ accepted
      → All IsPassOrSkip cs
  unfolding judged first_rejected
  first_rejected-judged_converse [] h = tt
  first_rejected-judged_converse (c ∷ cs) h = ground (arith, first_rejected-judged_converse cs)

  judged-ne-nil : (cs : List (TestCaseResult R)) → SomeJudged cs → judged R cs ≢ []
  unfolding judged
  judged-ne-nil [] h = absurd h
  judged-ne-nil (c ∷ cs) (inl h) = ground arith
  judged-ne-nil (c ∷ cs) (inr h) = ground (arith, judged-ne-nil cs h)

  judged-ne-nil_converse : (cs : List (TestCaseResult R)) → judged R cs ≢ [] → SomeJudged cs
  unfolding judged
  judged-ne-nil_converse [] h = absurd (h refl)
  judged-ne-nil_converse (c ∷ cs) h = ground (arith, judged-ne-nil_converse cs)

  verdict_of_ne-nil :
      (cs : List (TestCaseResult R)) → cs ≢ [] → verdict_of_judged R cs ≡ first_rejected R cs
  verdict_of_ne-nil [] h = absurd (h refl)
  verdict_of_ne-nil (c ∷ cs) h = refl

  accepted_parts :
      (cs js : List (TestCaseResult R))
      → judged R cs ≡ js
      → verdict_of_judged R js ≡ accepted
      → SomeJudged cs × All IsPassOrSkip cs
  accepted_parts cs [] e h = cc
  accepted_parts cs (j ∷ js) e h =
      (judged-ne-nil_converse cs (λ n. cc), first_rejected-judged_converse cs (rw e h))

  -- A solution is accepted exactly when some testcase was judged and every judged one is accepted.
  pub solution_verdict-accepted_iff :
      (cs : List (TestCaseResult R))
      → (solution_verdict R cs ≡ accepted) ↔ (SomeJudged cs × All IsPassOrSkip cs)
  unfolding solution_verdict
  solution_verdict-accepted_iff cs = (
    λ h. accepted_parts cs (judged R cs) refl h,
    λ h.
        verdict_of_ne-nil (judged R cs) (judged-ne-nil cs h.0)
        ∙ first_rejected-judged-accepted cs h.1,
  )

  module _ (c : TestCaseResult R) (after : List (TestCaseResult R))
      (rejected : c.verdict ≢ accepted) (run : c.verdict ≢ not_run) where
    judged-append-ne-nil : (before : List (TestCaseResult R)) → judged R (before ++ c ∷ after) ≢ []
    unfolding judged
    judged-append-ne-nil [] = ground arith
    judged-append-ne-nil (b ∷ before) = ground (arith, judged-append-ne-nil before)

    first_rejected-judged-append :
        (before : List (TestCaseResult R))
        → All IsPassOrSkip before
        → first_rejected R (judged R (before ++ c ∷ after)) ≡ c.verdict
    unfolding judged first_rejected
    first_rejected-judged-append [] h = ground arith
    first_rejected-judged-append (b ∷ before) h =
        ground (arith, first_rejected-judged-append before h.1)

    -- The verdict is that of the first judged testcase which is not accepted, whatever comes after it.
    pub solution_verdict-first :
        (before : List (TestCaseResult R))
        → All IsPassOrSkip before
        → solution_verdict R (before ++ c ∷ after) ≡ c.verdict
    unfolding solution_verdict
    solution_verdict-first before h =
        verdict_of_ne-nil (judged R (before ++ c ∷ after)) (judged-append-ne-nil before)
        ∙ first_rejected-judged-append before h
