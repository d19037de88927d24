-- ===== src/Processes/Loops.antt =====
-- A loop on fuel over steps that may raise an exception, with a rule for its invariants and one for its
-- end.
use problem_verifier.Prelude.{ℕ, zero, suc, ◌<◌, arith}
use problem_verifier.Prelude.Result.{Result, ok, Exc}
use problem_verifier.Steps.{◌>>=◌, pure, Ends, Ends-bind_ended}

-- A round of a loop goes on with new variables, or breaks with a value.
pub data Turn (V A : Type 0) : Type 0 where
  again : V → Turn V A
  done : A → Turn V A

module _ {S V A : Type 0} where
  abbrev pub go_on : (V → S → Result (Turn V A) × S) → Turn V A → S → Result (Turn V A) × S
  go_on next (again v) s = next v s
  go_on next (done a) s = (ok (done a), s)

  -- With no fuel left the result is `again`.
  unfoldable pub loop : ℕ → (V → S → Result (Turn V A) × S) → V → S → Result (Turn V A) × S
  loop zero body v = pure (again v)
  loop (suc fuel) body v = body v >>= go_on (loop fuel body)

  abbrev pub Kept : (V → S → Type 0) → (A → S → Type 0) → Turn V A → S → Type 0
  Kept I Q (again v) s = I v s
  Kept I Q (done a) s = Q a s

  -- The same, and `again` only with a smaller measure.
  abbrev pub Falls : (V → S → Type 0) → (A → S → Type 0) → (V → S → ℕ) → ℕ → Turn V A → S → Type 0
  Falls I Q measure bound (again v) s = I v s × (measure v s < bound)
  Falls I Q measure bound (done a) s = Q a s

  abbrev pub Finished : (A → S → Type 0) → Turn V A → S → Type 0
  Finished Q (again v) s = ⊥
  Finished Q (done a) s = Q a s

  go_on-Ends :
      (F : Exc → Type 0) (P W : Turn V A → S → Type 0) (next : V → S → Result (Turn V A) × S)
      → ((v : V) (s : S) → P (again v) s → Ends F W (next v s))
      → ((a : A) (s : S) → P (done a) s → W (done a) s)
      → (t : Turn V A) (s : S) → P t s
      → Ends F W (go_on next t s)
  go_on-Ends F P W next more stop (again v) s h = more v s h
  go_on-Ends F P W next more stop (done a) s h = stop a s h

  module _ (F : Exc → Type 0) (I : V → S → Type 0) (Q : A → S → Type 0)
      (body : V → S → Result (Turn V A) × S) where
    -- What every round keeps holds when the loop stops, however much fuel it has.
    pub loop-Kept :
        ((v : V) (s : S) → I v s → Ends F (Kept I Q) (body v s))
        → (fuel : ℕ) (v : V) (s : S) → I v s
        → Ends F (Kept I Q) (loop fuel body v s)
    unfolding loop
    loop-Kept keep zero v s h = h
    loop-Kept keep (suc fuel) v s h =
        Ends-bind_ended F (Kept I Q) (Kept I Q) (body v s) (go_on (loop fuel body)) (keep v s h)
          (go_on-Ends F (Kept I Q) (Kept I Q) (loop fuel body) (loop-Kept keep fuel) (λ a s h. h))

    -- Where every round also lowers a measure that the fuel exceeds, the loop breaks.
    pub loop-Finished :
        (measure : V → S → ℕ)
        → ((v : V) (s : S) → I v s → Ends F (Falls I Q measure (measure v s)) (body v s))
        → (fuel : ℕ) (v : V) (s : S) → I v s
        → measure v s < fuel
        → Ends F (Finished Q) (loop fuel body v s)
    unfolding loop
    loop-Finished measure fall zero v s h lt = absurd (omega arith)
    loop-Finished measure fall (suc fuel) v s h lt =
        Ends-bind_ended F (Falls I Q measure (measure v s)) (Finished Q) (body v s)
          (go_on (loop fuel body)) (fall v s h)
          (go_on-Ends F (Falls I Q measure (measure v s)) (Finished Q) (loop fuel body)
            (λ v' s' h. loop-Finished measure fall fuel v' s' h.0 (omega arith)) (λ a s h. h))
