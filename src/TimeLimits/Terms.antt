-- ===== src/TimeLimits/Terms.antt =====
-- What one term of an overshoot is worth.
use problem_verifier.Prelude.{
  ℕ, true, false, ◌≡◌, refl, subst, [], ◌∷◌, Option, none, some, Str, arith, All, All-append,
}
use problem_verifier.Prelude.Result.{ok, ok-injective, >>=-eq-ok}
use problem_verifier.Runtime.{Runtime}
use problem_verifier.Runtime.Laws.{IsLawful, IsNumberChar}
use problem_verifier.TimeLimits.{
  span_digits, add_fraction, with_fraction, number_then, match_number, float_or_raise, percent_of,
  seconds_or_percent, term_to_seconds, max_of, min_of,
}

module _ (R : Runtime) where
  span_digits-number : (text : Str) → All (IsNumberChar R) (span_digits R text).0
  unfolding span_digits
  span_digits-number [] = tt
  span_digits-number (c ∷ text) = ground (arith, span_digits-number text)

  add_fraction-number :
      (whole rest : Str) (c : ℕ) (found : Str × Str)
      → All (IsNumberChar R) whole
      → All (IsNumberChar R) found.0
      → All (IsNumberChar R) (add_fraction R whole rest c found).0
  add_fraction-number whole rest c ([], after) w f = w
  add_fraction-number whole rest c (d ∷ fraction, after) w f =
      ground (arith, All-append (IsNumberChar R) whole (c ∷ d ∷ fraction) w)

  with_fraction-number :
      (whole rest : Str)
      → All (IsNumberChar R) whole
      → All (IsNumberChar R) (with_fraction R whole rest).0
  with_fraction-number whole [] w = w
  with_fraction-number whole (c ∷ rest) w =
      add_fraction-number whole rest c (span_digits R rest) w (span_digits-number rest)

  number_then-number :
      (suffix : ℕ) (found : Str × Str) {number : Str}
      → All (IsNumberChar R) found.0
      → number_then R suffix found ≡ some number
      → All (IsNumberChar R) number
  number_then-number suffix ([], rest) f h = cc
  number_then-number suffix (d ∷ whole, rest) f h =
      ground (arith, with_fraction-number (d ∷ whole) rest f)

  match_number-number :
      (suffix : ℕ) (term : Str) {number : Str}
      → match_number R suffix term ≡ some number
      → All (IsNumberChar R) number
  unfolding match_number
  match_number-number suffix term h =
      number_then-number suffix (span_digits R term) (span_digits-number term) h

  module _ (L : IsLawful R) where
    float_of_match_nonneg :
        (suffix : ℕ) (term : Str) {number : Str} {x : R.Float}
        → match_number R suffix term ≡ some number
        → float_or_raise R number ≡ ok x
        → R.le (R.of_nat 0) x ≡ true
    unfolding float_or_raise
    float_of_match_nonneg suffix term {number} {x} m f =
        L.literal_nonneg number (match_number-number suffix term m) (ground arith)

    percent_of_nonneg :
        (term : Str) (limit : R.Float) (found : Option Str) {x : R.Float}
        → R.lt (R.of_nat 0) limit ≡ true
        → R.is_inf limit ≡ false
        → match_number R b'%' term ≡ found
        → percent_of R term limit found ≡ ok x
        → R.le (R.of_nat 0) x ≡ true
    percent_of_nonneg term limit none positive finite e h = cc
    percent_of_nonneg term limit (some number) positive finite e h =
        let (y, fy, ey) = >>=-eq-ok (float_or_raise R number) _ h in
        let nonneg = float_of_match_nonneg b'%' term e fy in
        let scaled = L.div_hundred_nonneg _ (L.mul_nonneg limit y positive finite nonneg) in
        subst (λ x. R.le (R.of_nat 0) x ≡ true) (ok-injective ey) scaled

    term_nonneg :
        (term : Str) (limit : R.Float) (found : Option Str) {x : R.Float}
        → R.lt (R.of_nat 0) limit ≡ true
        → R.is_inf limit ≡ false
        → match_number R b's' term ≡ found
        → seconds_or_percent R term limit found (match_number R b'%' term) ≡ ok x
        → R.le (R.of_nat 0) x ≡ true
    term_nonneg term limit none positive finite e h =
        percent_of_nonneg term limit (match_number R b'%' term) positive finite refl h
    term_nonneg term limit (some number) positive finite e h = float_of_match_nonneg b's' term e h

    -- A term is worth no negative number of seconds, for a finite positive limit.
    pub term_to_seconds_nonneg :
        (term : Str) (limit : R.Float) {x : R.Float}
        → R.lt (R.of_nat 0) limit ≡ true
        → R.is_inf limit ≡ false
        → term_to_seconds R term limit ≡ ok x
        → R.le (R.of_nat 0) x ≡ true
    unfolding term_to_seconds
    term_to_seconds_nonneg term limit positive finite h =
        term_nonneg term limit (match_number R b's' term) positive finite refl h

    pub max_of_nonneg :
        (x y : R.Float)
        → R.le (R.of_nat 0) x ≡ true
        → R.le (R.of_nat 0) y ≡ true
        → R.le (R.of_nat 0) (max_of R x y) ≡ true
    unfolding max_of
    max_of_nonneg x y hx hy = ground arith

    pub min_of_nonneg :
        (x y : R.Float)
        → R.le (R.of_nat 0) x ≡ true
        → R.le (R.of_nat 0) y ≡ true
        → R.le (R.of_nat 0) (min_of R x y) ≡ true
    unfolding min_of
    min_of_nonneg x y hx hy = ground arith
