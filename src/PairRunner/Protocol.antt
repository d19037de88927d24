-- ===== src/PairRunner/Protocol.antt =====
-- That image/interactive_runner.py treats its two children as a parent may.
use problem_verifier.Prelude.{ℕ, true, Option, some, ◌≡◌, refl, ◌⊎◌, inl, inr}
use problem_verifier.Prelude.Result.{ok}
use problem_verifier.Json.{Json}
use problem_verifier.Runtime.{Runtime}
use problem_verifier.Steps.{Ends, Ends-bind_ended, of_Ends, pure}
use problem_verifier.Processes.{
  Child, the_solution, the_validator, killed, IsOsError, NoError, Kernel, System,
}
use problem_verifier.Processes.Life.{
  Life, gone, Lives, passes, cleans, solution-≢-validator, validator-≢-solution,
}
use problem_verifier.Processes.Loops.{Turn, again, done, loop, loop-Kept}
use problem_verifier.PairRunner.{
  Arguments, Pair, is_none, round, finish, finish_turn, both_running, run_loop, main,
}
use problem_verifier.PairRunner.Tally.{life_of}
use problem_verifier.PairRunner.Rounds.{IsRunning, IsOver, Turned, round-Turned}
use problem_verifier.PairRunner.History.{at_first, began_at, main_by_loop}

module _ {R : Runtime} (K : Kernel R) (args : Arguments R) (began : R.Float) where
  -- Each child was treated as may be, and is gone where there is a result.
  abbrev Follows : Option (Json R.Float) → System K → Type 0
  Follows result s =
      (life life' : Life) × Lives the_solution s.events life
      × Lives the_validator s.events life'
      × ((is_none result ≡ true) ⊎ ((life ≡ gone) × (life' ≡ gone)))

  finish-gone :
      (pair : Pair R) (s : System K)
      → IsOver args began K pair s
      → Ends NoError
          (λ raw s'. Lives the_solution s'.events gone × Lives the_validator s'.events gone)
          (finish K pair s)
  unfolding finish
  finish-gone pair s over =
      let (a, status, n, m, e, e', tally, kills, once, kept) = over in
      rw (e', e)
        (
          passes (killed the_validator) validator-≢-solution (cleans tally.4),
          cleans (passes (killed the_solution) solution-≢-validator tally.5),
        )

  finish_turn-Follows :
      (t : Turn (Pair R) (Pair R)) (s : System K)
      → Turned args began K t s
      → Ends NoError Follows (finish_turn K t s)
  finish_turn-Follows (again pair) s h =
      (life_of pair.solution, life_of pair.validator, h.0.4, h.0.5, inl refl)
  finish_turn-Follows (done pair) s over =
      Ends-bind_ended NoError
        (λ raw s'. Lives the_solution s'.events gone × Lives the_validator s'.events gone) Follows
        (finish K pair s) (λ raw. pure (some raw)) (finish-gone pair s over)
        (λ raw s' h. (gone, gone, h.0, h.1, inr (refl, refl)))

  run_loop-Follows :
      (fuel : ℕ) (s : System K)
      → IsRunning args began K (both_running R) s
      → Ends NoError Follows (run_loop K fuel args began s)
  unfolding run_loop
  run_loop-Follows fuel s h =
      Ends-bind_ended NoError (Turned args began K) Follows
        (loop fuel (round K args began) (both_running R) s) (finish_turn K)
        (loop-Kept NoError (IsRunning args began K) (IsOver args began K) (round K args began)
          (round-Turned args began K) fuel (both_running R) s h)
        finish_turn-Follows

module _ {R : Runtime} (K : Kernel R) (fuel : ℕ) (args : Arguments R) (k : K.State) where
  main-Follows :
      Ends IsOsError (Follows K args (began_at K args k)) (main K fuel args (at_first K k))
  main-Follows =
      main_by_loop K fuel args k (Follows K args (began_at K args k))
        (λ s h. run_loop-Follows K args (began_at K args k) fuel s h)

  life_of_child :
      (child : Child) (result : Option (Json R.Float)) (s : System K)
      → Follows K args (began_at K args k) result s
      → (life : Life) × Lives child s.events life × ((is_none result ≡ true) ⊎ (life ≡ gone))
  life_of_child the_solution result s (life, life', h, h', is_over) =
      (life, h, elim is_over [ inl e ↦ inl e | inr e ↦ inr e.0 ])
  life_of_child the_validator result s (life, life', h, h', is_over) =
      (life', h', elim is_over [ inl e ↦ inl e | inr e ↦ inr e.1 ])

  -- A run of a pair in the container follows the protocol of a parent, for both children and however
  -- many rounds it had: each child is started once and waited for at most once, after it was started.
  -- Where there is a report, both children are gone.
  pub main-Lives :
      (child : Child) {result : Option (Json R.Float)}
      → (main K fuel args (at_first K k)).0 ≡ ok result
      → (life : Life) × Lives child (main K fuel args (at_first K k)).1.events life
        × ((is_none result ≡ true) ⊎ (life ≡ gone))
  main-Lives child {result} returned =
      life_of_child child result (main K fuel args (at_first K k)).1 (
        of_Ends IsOsError (Follows K args (began_at K args k)) (main K fuel args (at_first K k))
          main-Follows returned)
