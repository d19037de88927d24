-- ===== src/Runtime/Laws.antt =====
-- What some proofs assume of `float`: documented behaviour of IEEE comparisons and arithmetic.
use problem_verifier.Prelude.{ℕ, ◌≡◌, ◌⊎◌, true, false, some, Str, All}
use problem_verifier.Runtime.{Runtime}

module _ (R : Runtime) where
  -- What a literal of digits and points consists of.
  abbrev pub IsNumberChar : ℕ → Type 0
  IsNumberChar c = (R.is_digit c ≡ true) ⊎ (c ≡ b'.')

  pub record IsLawful : Type 0 where
    -- Numbers that are no NaN are linearly ordered, and no comparison holds at a NaN.
    pub le_refl : (x : R.Float) → R.is_nan x ≡ false → R.le x x ≡ true
    pub le_trans : (x y z : R.Float) → R.le x y ≡ true → R.le y z ≡ true → R.le x z ≡ true
    pub le_total :
        (x y : R.Float)
        → R.is_nan x ≡ false
        → R.is_nan y ≡ false
        → (R.le x y ≡ true) ⊎ (R.lt y x ≡ true)
    pub lt→le : (x y : R.Float) → R.lt x y ≡ true → R.le x y ≡ true
    pub nan_not-lt : (x y : R.Float) → R.is_nan x ≡ true → (R.lt x y ≡ false) × (R.lt y x ≡ false)
    pub nan_not-le : (x y : R.Float) → R.is_nan x ≡ true → (R.le x y ≡ false) × (R.le y x ≡ false)
    pub eq_refl : (x : R.Float) → R.is_nan x ≡ false → R.eq x x ≡ true
    pub not-nan_of_nat : (n : ℕ) → R.is_nan (R.of_nat n) ≡ false
    -- Rounding is monotone: what is not negative can be added without loss.
    pub le-add :
        (x y : R.Float)
        → R.lt (R.of_nat 0) x ≡ true
        → R.le (R.of_nat 0) y ≡ true
        → R.le x (R.add x y) ≡ true
    -- A finite positive number times one that is not negative.
    pub mul_nonneg :
        (x y : R.Float)
        → R.lt (R.of_nat 0) x ≡ true
        → R.is_inf x ≡ false
        → R.le (R.of_nat 0) y ≡ true
        → R.le (R.of_nat 0) (R.mul x y) ≡ true
    pub div_hundred_nonneg :
        (x : R.Float)
        → R.le (R.of_nat 0) x ≡ true
        → R.le (R.of_nat 0) (R.div x (R.of_nat 100)) ≡ true
    -- A literal with no sign is not negative.
    pub literal_nonneg :
        (text : Str) {x : R.Float}
        → All IsNumberChar text
        → R.float_of text ≡ some x
        → R.le (R.of_nat 0) x ≡ true
