-- ===== src/PairRunner/Measure.antt =====
-- A measure that every round of the loop of image/interactive_runner.py lowers.
use problem_verifier.Prelude.{
  ℕ, ◌+◌, ◌≤◌, ◌<◌, Bool, true, false, ◌&&◌, Option, none, some, ◌≡◌, refl, inl, inr, Bool-cases,
  arith,
}
use problem_verifier.Prelude.Result.{Result}
use problem_verifier.Runtime.{Runtime}
use problem_verifier.Steps.{Ends, Ends-bind_ended, bind_ended}
use problem_verifier.Processes.{
  the_solution, the_validator, NoError, after_poll, Status, Usage, Kernel, System,
}
use problem_verifier.Processes.Clock.{Clock, before-ticks}
use problem_verifier.Processes.Loops.{Turn, Falls}
use problem_verifier.Runner.{milliseconds}
use problem_verifier.PairRunner.{
  Arguments, Measured, Pair, is_none, take_solution, poll_solution, take_validator, poll_validator,
  stop_solution, stop_running_solution, stop_running_validator, stop_pair, stop_late_solution,
  go_by, poll_both, round,
}
use problem_verifier.PairRunner.Tally.{bit}

module _ {R : Runtime} (K : Kernel R) {deadline : R.Float} (clock : Clock K deadline)
    (began : R.Float) where
  -- The sleeps that are left, and one more round while the solution runs.
  abbrev pub measure : Option (Measured R) → System K → ℕ
  measure solution s = bit (is_none solution) + clock.ticks s.kernel

  -- Neither of the two has grown.
  abbrev IsLower : ℕ → ℕ → Option (Measured R) → System K → Type 0
  IsLower open_before ticks_before solution s =
      (bit (is_none solution) ≤ open_before) × (clock.ticks s.kernel ≤ ticks_before)

  take_solution-IsLower :
      (bound : ℕ) (s : System K) (polled : Option (Status × Usage R) × K.State)
      → clock.ticks polled.1 ≤ bound
      → Ends NoError
          (IsLower 1 bound)
          (bind_ended (after_poll K the_solution s polled) (take_solution K began))
  take_solution-IsLower bound s (none, k) le = (omega arith, le)
  take_solution-IsLower bound s (some ended, k) le =
      let more = clock.monotonic_ticks k in (omega arith, omega arith)

  poll_solution-IsLower :
      (bound : ℕ) (solution : Option (Measured R)) (s : System K)
      → clock.ticks s.kernel ≤ bound
      → Ends NoError (IsLower (bit (is_none solution)) bound) (poll_solution K began solution s)
  unfolding poll_solution
  poll_solution-IsLower bound (some a) s le = (omega arith, le)
  poll_solution-IsLower bound none s le =
      let more = clock.poll_ticks the_solution s.kernel in
      take_solution-IsLower bound s (K.poll the_solution s.kernel) (omega arith)

  take_validator-ticks :
      (bound : ℕ) (s : System K) (polled : Option (Status × Usage R) × K.State)
      → clock.ticks polled.1 ≤ bound
      → Ends NoError
          (λ validator s'. clock.ticks s'.kernel ≤ bound)
          (bind_ended (after_poll K the_validator s polled) (take_validator K))
  take_validator-ticks bound s (none, k) le = le
  take_validator-ticks bound s (some ended, k) le = le

  poll_validator-ticks :
      (bound : ℕ) (validator : Option Status) (s : System K)
      → clock.ticks s.kernel ≤ bound
      → Ends NoError (λ validator' s'. clock.ticks s'.kernel ≤ bound) (poll_validator K validator s)
  unfolding poll_validator
  poll_validator-ticks bound (some a) s le = le
  poll_validator-ticks bound none s le =
      let more = clock.poll_ticks the_validator s.kernel in
      take_validator-ticks bound s (K.poll the_validator s.kernel) (omega arith)

  stop_solution-IsLower :
      (bound : ℕ) (s : System K)
      → clock.ticks s.kernel ≤ bound
      → Ends NoError (IsLower 0 bound) (stop_solution K began s)
  unfolding stop_solution
  stop_solution-IsLower bound s le =
      let (found, k₁) = K.kill_group the_solution s.kernel in
      let (ended, k₂) = K.wait the_solution k₁ in
      let le₁ : clock.ticks k₁ ≤ clock.ticks s.kernel = clock.kill_ticks the_solution s.kernel in
      let le₂ : clock.ticks k₂ ≤ clock.ticks k₁ = clock.wait_ticks the_solution k₁ in
      let le₃ = clock.monotonic_ticks k₂ in (omega arith, omega arith)

  abbrev pub Anywhere : Pair R → System K → Type 0
  Anywhere pair s = Unit

  abbrev pub IsMeasured : Pair R → System K → Type 0
  IsMeasured pair s = is_none pair.solution ≡ false

  abbrev pub measure_of : Pair R → System K → ℕ
  measure_of pair s = measure pair.solution s

  abbrev pub FallsBelow : ℕ → Result (Turn (Pair R) (Pair R)) × System K → Type 0
  FallsBelow bound = Ends NoError (Falls Anywhere IsMeasured measure_of bound)

  stop_running_solution-some :
      (solution : Option (Measured R)) (s : System K)
      → Ends NoError
          (λ solution' s'. is_none solution' ≡ false)
          (stop_running_solution K began solution s)
  unfolding stop_solution
  stop_running_solution-some none s = refl
  stop_running_solution-some (some a) s = refl

  stop_running_validator-Ends :
      (validator : Option Status) (s : System K)
      → Ends NoError (λ validator' s'. Unit) (stop_running_validator K validator s)
  stop_running_validator-Ends none s = tt
  stop_running_validator-Ends (some status) s = tt

  stop_pair-FallsBelow :
      (bound : ℕ) (pair : Pair R) (s : System K) → FallsBelow bound (stop_pair K began pair s)
  unfolding stop_pair
  stop_pair-FallsBelow bound pair s =
      Ends-bind_ended NoError (λ solution s'. is_none solution ≡ false)
        (Falls Anywhere IsMeasured measure_of bound) (stop_running_solution K began pair.solution s)
        _ (stop_running_solution-some pair.solution s)
        (λ solution s' h.
          Ends-bind_ended NoError (λ validator s''. Unit)
            (Falls Anywhere IsMeasured measure_of bound)
            (stop_running_validator K pair.validator s') _
            (stop_running_validator-Ends pair.validator s') (λ validator s'' u. h))

  stop_late_solution-FallsBelow :
      (bound ticks : ℕ) (pair : Pair R) (s : System K)
      → clock.ticks s.kernel ≤ ticks
      → ticks < bound
      → FallsBelow bound (stop_late_solution K began pair s)
  unfolding stop_late_solution
  stop_late_solution-FallsBelow bound ticks pair s le lt =
      Ends-bind_ended NoError (IsLower 0 ticks) (Falls Anywhere IsMeasured measure_of bound)
        (stop_solution K began s) _ (stop_solution-IsLower ticks s le)
        (λ solution s' h. (tt, omega arith))

  go_by-FallsBelow :
      (left ticks : ℕ) (late pair_late : Bool) (pair : Pair R) (s : System K)
      → IsLower left ticks pair.solution s
      → (pair_late ≡ false → 0 < ticks)
      → FallsBelow (left + ticks) (go_by K began late pair_late pair s)
  go_by-FallsBelow left ticks late pair_late pair s h more =
      elim (Bool-cases (is_none pair.solution && late)) [
        | inl e ↦
            let running : is_none pair.solution ≡ true = ground arith in
            let counted : 1 ≤ left = rw running at h.0 in
            rw e (stop_late_solution-FallsBelow (left + ticks) ticks pair s h.1 (omega arith))
        | inr e ↦ rw e (elim (Bool-cases pair_late) [
          | inl e' ↦ rw e' (stop_pair-FallsBelow (left + ticks) pair s)
          | inr e' ↦
              let after = clock.sleep_ticks (milliseconds R 5) s.kernel in
              let some_left = more e' in rw e' (tt, omega arith)
        ])
      ]

  poll_both-FallsBelow :
      (args : Arguments R) (pair : Pair R) (s : System K)
      → deadline ≡ R.add began args.pair_timeout
      → FallsBelow (measure_of pair s) (poll_both K args began pair s)
  unfolding poll_both
  poll_both-FallsBelow args pair s e =
      let (time, k) = K.monotonic s.kernel in
      let s' : System K = record { kernel = k; events = s.events } in
      let ticks = clock.ticks s.kernel in
      let left = bit (is_none pair.solution) in
      Ends-bind_ended NoError (IsLower left ticks)
        (Falls Anywhere IsMeasured measure_of (left + ticks))
        (poll_solution K began pair.solution s') _
        (poll_solution-IsLower ticks pair.solution s' (clock.monotonic_ticks s.kernel))
        (λ solution s₁ h₁.
          Ends-bind_ended NoError (λ validator s₂. clock.ticks s₂.kernel ≤ ticks)
            (Falls Anywhere IsMeasured measure_of (left + ticks))
            (poll_validator K pair.validator s₁) _
            (poll_validator-ticks ticks pair.validator s₁ h₁.1)
            (λ validator s₂ h₂.
              go_by-FallsBelow left ticks (R.le (R.add began args.hard_kill) time)
                (R.le (R.add began args.pair_timeout) time)
                (record pair { solution = solution; validator = validator }) s₂ (h₁.0, h₂)
                (λ early. before-ticks K deadline clock s.kernel (rw e early))))

  round_by-FallsBelow :
      (bound : ℕ) (args : Arguments R) (pair : Pair R) (s : System K)
      → FallsBelow bound (poll_both K args began pair s)
      → FallsBelow bound (round K args began pair s)
  unfolding round
  round_by-FallsBelow bound args pair s polled = elim (Bool-cases (is_none pair.solution)) [
    | inl h ↦ rw h polled
    | inr h ↦
        rw h
          (elim (Bool-cases (is_none pair.validator)) [ inl h' ↦ rw h' polled | inr h' ↦ rw h' h ])
  ]

  -- Every round of the loop lowers the measure, or breaks with the solution measured.
  pub round-FallsBelow :
      (args : Arguments R) (pair : Pair R) (s : System K)
      → deadline ≡ R.add began args.pair_timeout
      → FallsBelow (measure_of pair s) (round K args began pair s)
  round-FallsBelow args pair s e =
      round_by-FallsBelow (measure_of pair s) args pair s (poll_both-FallsBelow args pair s e)
