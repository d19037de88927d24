-- ===== src/PairRunner/Tally.antt =====
-- How often each step of image/interactive_runner.py kills and reaps its two children.
use problem_verifier.Prelude.{
  ℕ, suc, ◌+◌, Bool, true, false, Option, none, some, List, [], ◌∷◌, ◌≡◌, refl, ◌⊎◌, inl, inr,
  arith, if◌then◌else◌,
}
use problem_verifier.Runtime.{Runtime}
use problem_verifier.Steps.{Ends, Ends-weaken, bind_ended}
use problem_verifier.Processes.{
  Child, the_solution, the_validator, Event, started, reaped, killed, NoError, after_poll, Status,
  Usage, Kernel, System,
}
use problem_verifier.Processes.Life.{
  Life, running, gone, Lives, stops, ends, passes, solution-≢-validator, validator-≢-solution,
}
use problem_verifier.PairRunner.{
  is_none, Measured, take_solution, poll_solution, take_validator, poll_validator, stop_solution,
  stop_running_validator,
}

abbrev same_child : Child → Child → Bool
same_child the_solution the_solution = true
same_child the_validator the_validator = true
same_child the_solution the_validator = false
same_child the_validator the_solution = false

abbrev same_event : Event → Event → Bool
same_event (started a) (started b) = same_child a b
same_event (reaped a) (reaped b) = same_child a b
same_event (killed a) (killed b) = same_child a b
same_event _ _ = false

-- How often an event happened.
abbrev pub times : Event → List Event → ℕ
times event [] = 0
times event (x ∷ events) = (if same_event event x then 1 else 0) + times event events

abbrev pub count : {A : Type 0} → Option A → ℕ
count none = 0
count (some value) = 1

abbrev pub bit : Bool → ℕ
bit true = 1
bit false = 0

-- A child whose status is known is gone.
abbrev pub life_of : {A : Type 0} → Option A → Life
life_of none = running
life_of (some status) = gone

-- A child has been waited for exactly where its status is known, and the events are such as may be. The
-- two numbers are how often each child was killed.
abbrev pub Tally : (R : Runtime) → Option (Measured R) → Option Status → ℕ → ℕ → List Event → Type 0
Tally R solution validator kills_solution kills_validator events =
    (times (reaped the_solution) events ≡ count solution)
    × (times (reaped the_validator) events ≡ count validator)
    × (times (killed the_solution) events ≡ kills_solution)
    × (times (killed the_validator) events ≡ kills_validator)
    × Lives the_solution events (life_of solution)
    × Lives the_validator events (life_of validator)

module _ {R : Runtime} (K : Kernel R) (began : R.Float) where
  take_solution-Tally :
      (validator : Option Status) (n m : ℕ) (s : System K)
      (polled : Option (Status × Usage R) × K.State)
      → Tally R none validator n m s.events
      → Ends NoError
          (λ solution s'. Tally R solution validator n m s'.events)
          (bind_ended (after_poll K the_solution s polled) (take_solution K began))
  take_solution-Tally validator n m s (none, k) h = h
  take_solution-Tally validator n m s (some ended, k) h = (
    omega arith,
    omega arith,
    omega arith,
    omega arith,
    ends h.4,
    passes (reaped the_solution) solution-≢-validator h.5,
  )

  -- A poll of the solution keeps the tally and forgets no status.
  abbrev pub Polled :
      Option (Measured R) → Option Status → ℕ → ℕ → Option (Measured R) → System K → Type 0
  Polled old validator n m solution s =
      Tally R solution validator n m s.events × ((is_none old ≡ true) ⊎ (is_none solution ≡ false))

  pub poll_solution-Tally :
      (solution : Option (Measured R)) (validator : Option Status) (n m : ℕ) (s : System K)
      → Tally R solution validator n m s.events
      → Ends NoError (Polled solution validator n m) (poll_solution K began solution s)
  unfolding poll_solution
  poll_solution-Tally (some a) validator n m s h = (h, inr refl)
  poll_solution-Tally none validator n m s h =
      Ends-weaken NoError (λ solution s'. Tally R solution validator n m s'.events)
        (Polled none validator n m) (poll_solution K began none s)
        (take_solution-Tally validator n m s (K.poll the_solution s.kernel) h)
        (λ solution s' h'. (h', inl refl))

  take_validator-Tally :
      (solution : Option (Measured R)) (n m : ℕ) (s : System K)
      (polled : Option (Status × Usage R) × K.State)
      → Tally R solution none n m s.events
      → Ends NoError
          (λ validator s'. Tally R solution validator n m s'.events)
          (bind_ended (after_poll K the_validator s polled) (take_validator K))
  take_validator-Tally solution n m s (none, k) h = h
  take_validator-Tally solution n m s (some ended, k) h = (
    omega arith,
    omega arith,
    omega arith,
    omega arith,
    passes (reaped the_validator) validator-≢-solution h.4,
    ends h.5,
  )

  pub poll_validator-Tally :
      (solution : Option (Measured R)) (validator : Option Status) (n m : ℕ) (s : System K)
      → Tally R solution validator n m s.events
      → Ends NoError
          (λ validator' s'. Tally R solution validator' n m s'.events)
          (poll_validator K validator s)
  unfolding poll_validator
  poll_validator-Tally solution (some a) n m s h = h
  poll_validator-Tally solution none n m s h =
      take_validator-Tally solution n m s (K.poll the_validator s.kernel) h

  abbrev Stopped : Option Status → ℕ → ℕ → Option (Measured R) → System K → Type 0
  Stopped validator n m solution s =
      (a : Measured R) × (solution ≡ some a) × Tally R (some a) validator n m s.events

  -- A solution that is stopped is killed once and waited for once.
  pub stop_solution-Tally :
      (validator : Option Status) (n m : ℕ) (s : System K)
      → Tally R none validator n m s.events
      → Ends NoError (Stopped validator (suc n) m) (stop_solution K began s)
  unfolding stop_solution
  stop_solution-Tally validator n m s h = (
    _,
    refl,
    (
      omega arith,
      omega arith,
      omega arith,
      omega arith,
      ends (stops h.4),
      passes (reaped the_solution) solution-≢-validator
          (passes (killed the_solution) solution-≢-validator h.5),
    ),
  )

  pub stop_running_validator-Tally :
      (solution : Option (Measured R)) (validator : Option Status) (n m : ℕ) (s : System K)
      → Tally R solution validator n m s.events
      → Ends NoError
          (λ validator' s'.
            (status : Status) × (validator' ≡ some status)
            × (m' : ℕ) × Tally R solution (some status) n m' s'.events)
          (stop_running_validator K validator s)
  stop_running_validator-Tally solution (some a) n m s h = (a, refl, m, h)
  stop_running_validator-Tally solution none n m s h = (
    _,
    refl,
    suc m,
    (
      omega arith,
      omega arith,
      omega arith,
      omega arith,
      passes (reaped the_validator) validator-≢-solution
          (passes (killed the_validator) validator-≢-solution h.4),
      ends (stops h.5),
    ),
  )
