-- ===== src/Prelude/Int.antt =====
-- Python's `int` where it may be negative: exit codes.
use Prim.Native.Nat.{ℕ}
use mathlib.Core.Path.{ap}
use mathlib.Core.Logic.{dite}
use native.Mathlib.Decide.{ℕ_discrete}
use problem_verifier.Prelude.Tests.{Eq}

-- `negsuc n` is -(n + 1).
pub data ℤ : Type 0 where
  pos : ℕ → ℤ
  negsuc : ℕ → ℤ

unfoldable pub ℤ-discrete : Discrete ℤ
unfolding ℕ_discrete
ℤ-discrete (pos a) (pos b) = dite (ℕ_discrete a b) (λ p. yes (ap pos p)) (λ n. no (λ p. n (cc)))
ℤ-discrete (pos a) (negsuc b) = no (λ p. cc)
ℤ-discrete (negsuc a) (pos b) = no (λ p. cc)
ℤ-discrete (negsuc a) (negsuc b) =
    dite (ℕ_discrete a b) (λ p. yes (ap negsuc p)) (λ n. no (λ p. n (cc)))

instance unfoldable pub int_eq : Eq ℤ
unfolding ℤ-discrete
int_eq = record { dec = ℤ-discrete }
