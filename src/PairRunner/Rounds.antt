-- ===== src/PairRunner/Rounds.antt =====
-- What the rounds of the loop of image/interactive_runner.py do to the two children.
use problem_verifier.Prelude.{
  ℕ, suc, Bool, true, false, Option, none, some, ◌≡◌, refl, ◌⊎◌, inl, inr, arith,
}
use problem_verifier.Runtime.{Runtime}
use problem_verifier.Steps.{Ends, Ends-bind_ended, Ends-weaken, ◌>>=◌, pure}
use problem_verifier.Processes.{NoError, Status, Kernel, System}
use problem_verifier.Processes.Loops.{Turn, again, done, Kept}
use problem_verifier.PairRunner.{
  Arguments, Measured, Pair, is_none, poll_solution, poll_validator, stop_solution,
  stop_running_solution, stop_running_validator, stop_pair, stop_late_solution, go_by, poll_both,
  round,
}
use problem_verifier.PairRunner.Tally.{
  bit, Tally, Polled, poll_solution-Tally, poll_validator-Tally, stop_solution-Tally,
  stop_running_validator-Tally,
}

still_known :
    {late was is_now : Bool}
    → (late ≡ false) ⊎ (was ≡ false)
    → (was ≡ true) ⊎ (is_now ≡ false)
    → (late ≡ false) ⊎ (is_now ≡ false)
still_known (inl e) h = inl e
still_known (inr e) (inl e') = cc
still_known (inr e) (inr e') = inr e'

late-bit : (late : Bool) → (late ≡ false) ⊎ (bit late ≡ 1)
late-bit true = inr refl
late-bit false = inl refl

module _ {R : Runtime} (args : Arguments R) (began : R.Float) where
  -- The pair's deadline was reached at a time at which the solution's was not.
  abbrev pub IsTooSoon : R.Float → Type 0
  IsTooSoon time =
      (R.le (R.add began args.hard_kill) time ≡ false)
      × (R.le (R.add began args.pair_timeout) time ≡ true)

  module _ (K : Kernel R) where
    -- What is known while the loop runs: the solution was killed if it timed out, and nobody else.
    abbrev pub IsRunning : Pair R → System K → Type 0
    IsRunning pair s =
        Tally R pair.solution pair.validator (bit pair.sol_timed_out) 0 s.events
        × ((pair.sol_timed_out ≡ false) ⊎ (is_none pair.solution ≡ false))
        × (pair.pair_timed_out ≡ false)

    -- What is known behind it: both were waited for once, the solution was killed before only if it
    -- timed out or the pair did, and the validator only if the pair did.
    abbrev pub IsOver : Pair R → System K → Type 0
    IsOver pair s =
        (a : Measured R) × (status : Status) × (n m : ℕ) × (pair.solution ≡ some a)
        × (pair.validator ≡ some status)
        × Tally R (some a) (some status) n m s.events
        × ((n ≡ bit pair.sol_timed_out)
            ⊎ ((pair.pair_timed_out ≡ true) × ((time : R.Float) × IsTooSoon time)))
        × ((pair.sol_timed_out ≡ false) ⊎ (n ≡ 1))
        × ((m ≡ 0) ⊎ (pair.pair_timed_out ≡ true))

    abbrev pub Turned : Turn (Pair R) (Pair R) → System K → Type 0
    Turned = Kept IsRunning IsOver

    stop_late_solution-Turned :
        (pair : Pair R) (s : System K)
        → pair.pair_timed_out ≡ false
        → Tally R none pair.validator 0 0 s.events
        → Ends NoError Turned (stop_late_solution K began pair s)
    unfolding stop_late_solution
    stop_late_solution-Turned pair s in_time tally =
        Ends-bind_ended NoError
          (λ solution s'.
            (a : Measured R) × (solution ≡ some a) × Tally R (some a) pair.validator 1 0 s'.events)
          Turned (stop_solution K began s)
          (λ solution. pure (again (record pair { solution = solution; sol_timed_out = true })))
          (stop_solution-Tally K began pair.validator 0 0 s tally)
          (λ solution s' h. rw h.1 (h.2, inr refl, in_time))

    -- What is known of the solution when the pair is stopped.
    abbrev IsStopped : Option Status → Bool → Option (Measured R) → System K → Type 0
    IsStopped validator sol_timed_out solution s =
        (a : Measured R) × (n : ℕ) × (solution ≡ some a)
        × Tally R (some a) validator n 0 s.events
        × ((n ≡ bit sol_timed_out) ⊎ ((time : R.Float) × IsTooSoon time))
        × ((sol_timed_out ≡ false) ⊎ (n ≡ 1))

    stop_running_solution-IsStopped :
        (solution : Option (Measured R)) (validator : Option Status) (sol_timed_out : Bool)
        (s : System K)
        → Tally R solution validator (bit sol_timed_out) 0 s.events
        → (sol_timed_out ≡ false) ⊎ (is_none solution ≡ false)
        → (is_none solution ≡ true → (time : R.Float) × IsTooSoon time)
        → Ends NoError
            (IsStopped validator sol_timed_out)
            (stop_running_solution K began solution s)
    stop_running_solution-IsStopped (some a) validator true s tally late soon =
        (a, 1, refl, tally, inl refl, inr refl)
    stop_running_solution-IsStopped (some a) validator false s tally late soon =
        (a, 0, refl, tally, inl refl, inl refl)
    stop_running_solution-IsStopped none validator sol_timed_out s tally late soon =
        Ends-weaken NoError
          (λ solution s'.
            (a : Measured R) × (solution ≡ some a)
            × Tally R (some a) validator (suc (bit sol_timed_out)) 0 s'.events)
          (IsStopped validator sol_timed_out) (stop_solution K began s)
          (stop_solution-Tally K began validator (bit sol_timed_out) 0 s tally)
          (λ solution s' h.
            (h.0, suc (bit sol_timed_out), h.1, h.2, inr (soon refl), inl ground arith))

    stop_pair-Turned :
        (pair : Pair R) (s : System K)
        → IsRunning pair s
        → (is_none pair.solution ≡ true → (time : R.Float) × IsTooSoon time)
        → Ends NoError Turned (stop_pair K began pair s)
    unfolding stop_pair
    stop_pair-Turned pair s h soon =
        Ends-bind_ended NoError (IsStopped pair.validator pair.sol_timed_out) Turned
          (stop_running_solution K began pair.solution s)
          (λ solution. stop_running_validator K pair.validator >>= λ validator. pure (
            done
              (record pair { solution = solution; validator = validator; pair_timed_out = true })))
          (stop_running_solution-IsStopped pair.solution pair.validator pair.sol_timed_out s h.0 h.1
            soon)
          (λ solution s' h'.
            let (a, n, e, tally, kills, once) = h' in
            Ends-bind_ended NoError
              (λ validator' s''.
                (status : Status) × (validator' ≡ some status)
                × (m' : ℕ) × Tally R solution (some status) n m' s''.events)
              Turned (stop_running_validator K pair.validator s')
              (λ validator. pure (
                done (record pair {
                  solution = solution;
                  validator = validator;
                  pair_timed_out = true;
                })))
              (stop_running_validator-Tally K began solution pair.validator n 0 s' (rw e tally))
              (λ validator s'' h''.
                let (status, e', m, t) = h'' in
                let counted : Tally R (some a) (some status) n m s''.events = rw e at t in
                (
                  a,
                  status,
                  n,
                  m,
                  e,
                  e',
                  counted,
                  elim kills [ inl k ↦ inl k | inr k ↦ inr (refl, k) ],
                  once,
                  inr refl,
                )))

    abbrev pair_of : Option (Measured R) → Option Status → Bool → Bool → Pair R
    pair_of solution validator sol_timed_out pair_timed_out = record {
      solution = solution;
      validator = validator;
      sol_timed_out = sol_timed_out;
      pair_timed_out = pair_timed_out;
    }

    go_by-Turned :
        (late pair_late : Bool) (solution : Option (Measured R)) (validator : Option Status)
        (sol_timed_out pair_timed_out : Bool) (s : System K)
        → let pair = pair_of solution validator sol_timed_out pair_timed_out in
          IsRunning pair s
          → (late ≡ false → pair_late ≡ true → (time : R.Float) × IsTooSoon time)
          → Ends NoError Turned (go_by K began late pair_late pair s)
    go_by-Turned true pair_late none validator true in_time s h soon = elim h.1 [
      | inl e ↦ cc
      | inr e ↦ cc
    ]
    go_by-Turned true pair_late none validator false in_time s h soon =
        stop_late_solution-Turned (pair_of none validator false in_time) s h.2 h.0
    go_by-Turned false true none validator late_one in_time s h soon =
        stop_pair-Turned (pair_of none validator late_one in_time) s h (λ e. soon refl refl)
    go_by-Turned false false none validator late_one in_time s h soon = h
    go_by-Turned late true (some a) validator late_one in_time s h soon =
        stop_pair-Turned (pair_of (some a) validator late_one in_time) s h (λ e. cc)
    go_by-Turned late false (some a) validator late_one in_time s h soon = h

    poll_both-Turned :
        (pair : Pair R) (s : System K)
        → IsRunning pair s
        → Ends NoError Turned (poll_both K args began pair s)
    unfolding poll_both
    poll_both-Turned pair s h =
        let (time, k) = K.monotonic s.kernel in
        let s' : System K = record { kernel = k; events = s.events } in
        Ends-bind_ended NoError
          (Polled K began pair.solution pair.validator (bit pair.sol_timed_out) 0) Turned
          (poll_solution K began pair.solution s') _
          (poll_solution-Tally K began pair.solution pair.validator (bit pair.sol_timed_out) 0 s'
            h.0)
          (λ solution s₁ h₁.
            Ends-bind_ended NoError
              (λ validator s₂. Tally R solution validator (bit pair.sol_timed_out) 0 s₂.events)
              Turned (poll_validator K pair.validator s₁) _
              (poll_validator-Tally K began solution pair.validator (bit pair.sol_timed_out) 0 s₁
                h₁.0)
              (λ validator s₂ h₂.
                let known = still_known h.1 h₁.1 in
                go_by-Turned (R.le (R.add began args.hard_kill) time)
                  (R.le (R.add began args.pair_timeout) time) solution validator pair.sol_timed_out
                  pair.pair_timed_out s₂ (h₂, known, h.2)
                  (λ late pair_late. (time, (late, pair_late)))))

    round_by-Turned :
        (solution : Option (Measured R)) (validator : Option Status)
        (sol_timed_out pair_timed_out : Bool) (s : System K)
        → let pair = pair_of solution validator sol_timed_out pair_timed_out in
          IsRunning pair s → Ends NoError Turned (round K args began pair s)
    unfolding round
    round_by-Turned none validator late in_time s h =
        poll_both-Turned (pair_of none validator late in_time) s h
    round_by-Turned (some a) none late in_time s h =
        poll_both-Turned (pair_of (some a) none late in_time) s h
    round_by-Turned (some a) (some status) late in_time s h =
        (a, status, bit late, 0, refl, refl, h.0, inl refl, late-bit late, inl refl)

    pub round-Turned :
        (pair : Pair R) (s : System K)
        → IsRunning pair s
        → Ends NoError Turned (round K args began pair s)
    round-Turned pair s h =
        round_by-Turned pair.solution pair.validator pair.sol_timed_out pair.pair_timed_out s h
