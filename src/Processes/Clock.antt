-- ===== src/Processes/Clock.antt =====
-- What the proofs that the runners' loops end assume of the clock: a deadline is a number of sleeps
-- away.
use problem_verifier.Prelude.{ℕ, ◌-◌, ◌≤◌, ◌<◌, true, false, Option, List, Str, ◌≡◌, dec_lt, arith}
use problem_verifier.Runtime.{Runtime}
use problem_verifier.Processes.{Child, ChildLimits, Kernel}

-- `ticks` bounds the sleeps that are left until the clock shows the deadline. A sleep takes one, and no
-- call gives one back.
pub record Clock {R : Runtime} (K : Kernel R) (deadline : R.Float) : Type 0 where
  pub ticks : K.State → ℕ
  pub sleep_ticks : (seconds : R.Float) (k : K.State) → ticks (K.sleep seconds k) ≤ ticks k - 1
  pub monotonic_ticks : (k : K.State) → ticks (K.monotonic k).1 ≤ ticks k
  pub spawn_ticks :
      (child : Child) (argv : List Str) (limits : Option ChildLimits) (k : K.State)
      → ticks (K.spawn child argv limits k).1 ≤ ticks k
  pub poll_ticks : (child : Child) (k : K.State) → ticks (K.poll child k).1 ≤ ticks k
  pub wait_ticks : (child : Child) (k : K.State) → ticks (K.wait child k).1 ≤ ticks k
  pub kill_ticks : (child : Child) (k : K.State) → ticks (K.kill_group child k).1 ≤ ticks k
  pub watched_ticks : (k : K.State) → ticks (K.watched k).1 ≤ ticks k
  pub passed : (k : K.State) → ticks k ≡ 0 → R.le deadline (K.monotonic k).0 ≡ true

-- Before the deadline there is a sleep left.
pub before-ticks :
    {R : Runtime} (K : Kernel R) (deadline : R.Float) (clock : Clock K deadline) (k : K.State)
    → R.le deadline (K.monotonic k).0 ≡ false
    → 0 < clock.ticks k
before-ticks {R} K deadline clock k early = elim (dec_lt 0 (clock.ticks k)) [
  | yes h ↦ h
  | no h ↦ let late : R.le deadline (K.monotonic k).0 ≡ true = clock.passed k (omega arith) in cc
]
