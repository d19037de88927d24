-- ===== src/TimeLimits/Pairs.antt =====
-- An overshoot of two terms: `A|B` is the larger one and `A&B` the smaller.
use problem_verifier.Prelude.{
  ℕ, true, false, ◌≡◌, refl, ◌≢◌, ◌⊎◌, [], ◌∷◌, ◌++◌, Str, arith, All-append, map, strip, split_on,
  contains, nat_eq, is_space,
}
use problem_verifier.Prelude.Result.{ok}
use problem_verifier.Splitting.{
  Lacks, IsSolid, split_on_two, strip-solid, contains-append, contains-Lacks,
}
use problem_verifier.Runtime.{Runtime}
use problem_verifier.Runtime.Laws.{IsLawful}
use problem_verifier.TimeLimits.{
  TimeLimits, term_to_seconds, max_of, min_of, overshoot_of, make_time_limits,
}
use problem_verifier.TimeLimits.Terms.{term_to_seconds_nonneg}

-- A term as it stands in an overshoot of two: no white space and no separator.
pub record IsTerm (text : Str) : Type 0 where
  pub solid : IsSolid text
  pub no_bar : Lacks b'|' text
  pub no_amp : Lacks b'&' text

bar_not-space : is_space b'|' ≡ false
unfolding is_space nat_eq
bar_not-space = refl

amp_not-space : is_space b'&' ≡ false
unfolding is_space nat_eq
amp_not-space = refl

module _ (a b : Str) (ta : IsTerm a) (tb : IsTerm b) where
  parts :
      (sep : ℕ) → Lacks sep a → Lacks sep b → map strip (split_on sep (a ++ sep ∷ b)) ≡ a ∷ b ∷ []
  parts sep la lb =
      rw (split_on_two sep a b la lb) (rw (strip-solid a ta.solid, strip-solid b tb.solid))

  strip-pair : (sep : ℕ) → is_space sep ≡ false → strip (a ++ sep ∷ b) ≡ a ++ sep ∷ b
  strip-pair sep h =
      strip-solid (a ++ sep ∷ b)
        (All-append (λ d. is_space d ≡ false) a (sep ∷ b) ta.solid (h, tb.solid))

  contains-pair_self : (sep : ℕ) → contains sep (a ++ sep ∷ b) ≡ true
  contains-pair_self sep = rw contains-append (ground arith)

  contains-pair_other :
      (sep c : ℕ) → Lacks c a → Lacks c b → c ≢ sep → contains c (a ++ sep ∷ b) ≡ false
  contains-pair_other sep c la lb n =
      rw contains-append (ground (arith, contains-Lacks c a la, contains-Lacks c b lb))

  pair-ne-nil : (sep : ℕ) → a ++ sep ∷ b ≢ []
  pair-ne-nil sep = go a
    where
      go : (a : Str) → a ++ sep ∷ b ≢ []
      go [] h = cc
      go (c ∷ a) h = cc

  module _ (R : Runtime) (limit : R.Float) (guard : R.le limit (R.of_nat 0) ≡ false) where
    make_time_limits-bar :
        {x y : R.Float}
        → term_to_seconds R a limit ≡ ok x
        → term_to_seconds R b limit ≡ ok y
        → make_time_limits R limit (a ++ b'|' ∷ b)
          ≡ ok (record {
            limit = limit;
            overshoot = max_of R x y;
            hard_kill = R.add limit (max_of R x y);
          })
    unfolding make_time_limits overshoot_of
    make_time_limits-bar hx hy = ground (
      arith,
      strip-pair b'|' bar_not-space,
      contains-pair_self b'|',
      contains-pair_other b'|' b'&' ta.no_amp tb.no_amp,
      pair-ne-nil b'|',
      parts b'|' ta.no_bar tb.no_bar,
    )

    make_time_limits-amp :
        {x y : R.Float}
        → term_to_seconds R a limit ≡ ok x
        → term_to_seconds R b limit ≡ ok y
        → make_time_limits R limit (a ++ b'&' ∷ b)
          ≡ ok (record {
            limit = limit;
            overshoot = min_of R x y;
            hard_kill = R.add limit (min_of R x y);
          })
    unfolding make_time_limits overshoot_of
    make_time_limits-amp hx hy = ground (
      arith,
      strip-pair b'&' amp_not-space,
      contains-pair_self b'&',
      contains-pair_other b'&' b'|' ta.no_bar tb.no_bar,
      pair-ne-nil b'&',
      parts b'&' ta.no_amp tb.no_amp,
    )

module _ (R : Runtime) (L : IsLawful R) where
  not-nan_of_nonneg : (x : R.Float) → R.le (R.of_nat 0) x ≡ true → R.is_nan x ≡ false
  not-nan_of_nonneg x h = ground (arith, L.nan_not-le x (R.of_nat 0))

  module _ (x y : R.Float) (nx : R.is_nan x ≡ false) (ny : R.is_nan y ≡ false) where
    max_of_lem :
        ((max_of R x y ≡ x) ⊎ (max_of R x y ≡ y))
        × (R.le x (max_of R x y) ≡ true)
        × (R.le y (max_of R x y) ≡ true)
    unfolding max_of
    max_of_lem = ground (arith, L.lt→le x y, L.le_refl x nx, L.le_refl y ny, L.le_total y x ny nx)

    min_of_lem :
        ((min_of R x y ≡ x) ⊎ (min_of R x y ≡ y))
        × (R.le (min_of R x y) x ≡ true)
        × (R.le (min_of R x y) y ≡ true)
    unfolding min_of
    min_of_lem = ground (arith, L.lt→le y x, L.le_refl x nx, L.le_refl y ny, L.le_total x y nx ny)

-- For a finite positive limit, and two terms without white space and separators that are worth x and y
-- seconds: `a|b` gives an overshoot that is one of the two and no less than either, and `a&b` one that
-- is one of the two and no more than either.
pub make_time_limits_pair :
    (R : Runtime) (limit : R.Float) (a b : Str) {x y : R.Float}
    → IsLawful R
    → R.lt (R.of_nat 0) limit ≡ true
    → R.le limit (R.of_nat 0) ≡ false
    → R.is_inf limit ≡ false
    → IsTerm a
    → IsTerm b
    → term_to_seconds R a limit ≡ ok x
    → term_to_seconds R b limit ≡ ok y
    → ((t : TimeLimits R) × (make_time_limits R limit (a ++ b'|' ∷ b) ≡ ok t)
        × ((t.overshoot ≡ x) ⊎ (t.overshoot ≡ y))
        × (R.le x t.overshoot ≡ true)
        × (R.le y t.overshoot ≡ true))
      × ((t : TimeLimits R) × (make_time_limits R limit (a ++ b'&' ∷ b) ≡ ok t)
          × ((t.overshoot ≡ x) ⊎ (t.overshoot ≡ y))
          × (R.le t.overshoot x ≡ true)
          × (R.le t.overshoot y ≡ true))
make_time_limits_pair R limit a b {x} {y} L positive guard finite ta tb hx hy =
    let nx = not-nan_of_nonneg R L x (term_to_seconds_nonneg R L a limit positive finite hx) in
    let ny = not-nan_of_nonneg R L y (term_to_seconds_nonneg R L b limit positive finite hy) in
    let (m, mx, my) = max_of_lem R L x y nx ny in
    let (n, kx, ky) = min_of_lem R L x y nx ny in
    (
      (_, make_time_limits-bar a b ta tb R limit guard hx hy, m, mx, my),
      (_, make_time_limits-amp a b ta tb R limit guard hx hy, n, kx, ky),
    )
