-- ===== src/TimeLimits/Bounds.antt =====
-- What `make_time_limits` promises.
use problem_verifier.Prelude.{
  true, false, ◌≡◌, inl, inr, List, [], ◌∷◌, Str, arith, map, subst, strip, split_on, contains,
  Bool-cases, nat_eq,
}
use problem_verifier.Prelude.Result.{ok, ok-injective, >>=-eq-ok}
use problem_verifier.Runtime.{Runtime}
use problem_verifier.Runtime.Laws.{IsLawful}
use problem_verifier.TimeLimits.{
  TimeLimits, term_to_seconds, max_of, min_of, combine_terms, overshoot_of, make_time_limits,
}
use problem_verifier.TimeLimits.Terms.{term_to_seconds_nonneg, max_of_nonneg, min_of_nonneg}

module _ (R : Runtime) (L : IsLawful R) (limit : R.Float)
    (positive : R.lt (R.of_nat 0) limit ≡ true) (finite : R.is_inf limit ≡ false) where
  combine_terms_nonneg :
      (combine : R.Float → R.Float → R.Float)
      → ((x y : R.Float)
          → R.le (R.of_nat 0) x ≡ true
          → R.le (R.of_nat 0) y ≡ true
          → R.le (R.of_nat 0) (combine x y) ≡ true)
      → (terms : List Str) (spec : Str) {x : R.Float}
      → combine_terms R combine terms limit spec ≡ ok x
      → R.le (R.of_nat 0) x ≡ true
  combine_terms_nonneg combine keep (s ∷ t ∷ []) spec {x} h =
      let (a, ha, h') = >>=-eq-ok (term_to_seconds R s limit) _ h in
      let (b, hb, e) = >>=-eq-ok (term_to_seconds R t limit) _ h' in
      let na = term_to_seconds_nonneg R L s limit positive finite ha in
      let nb = term_to_seconds_nonneg R L t limit positive finite hb in
      subst (λ x. R.le (R.of_nat 0) x ≡ true) (ok-injective e) (keep a b na nb)
  combine_terms_nonneg combine keep _ spec h = cc

  overshoot_of_nonneg :
      (spec overshoot_spec : Str) {x : R.Float}
      → overshoot_of R spec limit overshoot_spec ≡ ok x
      → R.le (R.of_nat 0) x ≡ true
  unfolding overshoot_of
  overshoot_of_nonneg spec overshoot_spec {x} h = elim (Bool-cases (contains b'|' spec)) [
    | inl bar ↦
        combine_terms_nonneg (max_of R) (max_of_nonneg R L) (map strip (split_on b'|' spec))
          overshoot_spec (rw bar at h)
    | inr bar ↦ elim (Bool-cases (contains b'&' spec)) [
      | inl amp ↦
          combine_terms_nonneg (min_of R) (min_of_nonneg R L) (map strip (split_on b'&' spec))
            overshoot_spec (rw (bar, amp) at h)
      | inr amp ↦ term_to_seconds_nonneg R L spec limit positive finite (rw (bar, amp) at h)
    ]
  ]

-- The result of a successful call, with the guards that it passed.
make_time_limits-inv :
    (R : Runtime) (limit : R.Float) (spec : Str) {t : TimeLimits R}
    → make_time_limits R limit spec ≡ ok t
    → (R.le limit (R.of_nat 0) ≡ false)
      × (overshoot_of R (strip spec) limit spec ≡ ok t.overshoot)
      × (t.limit ≡ limit)
      × (t.hard_kill ≡ R.add limit t.overshoot)
unfolding make_time_limits
make_time_limits-inv R limit spec h = ground arith

positive_of_guard :
    (R : Runtime) (L : IsLawful R) (limit : R.Float)
    → R.is_nan limit ≡ false
    → R.le limit (R.of_nat 0) ≡ false
    → R.lt (R.of_nat 0) limit ≡ true
positive_of_guard R L limit number guard =
    ground (arith, L.le_total limit (R.of_nat 0) number (L.not-nan_of_nat 0))

-- For a finite limit that is no NaN, a successful call keeps the limit, which is positive, finds an
-- overshoot that is not negative, and sets the hard kill to their sum, which is no earlier than the
-- limit.
pub make_time_limits_bounds :
    (R : Runtime) (limit : R.Float) (spec : Str) {t : TimeLimits R}
    → IsLawful R
    → R.is_nan limit ≡ false
    → R.is_inf limit ≡ false
    → make_time_limits R limit spec ≡ ok t
    → (t.limit ≡ limit)
      × (R.lt (R.of_nat 0) t.limit ≡ true)
      × (R.le (R.of_nat 0) t.overshoot ≡ true)
      × (t.hard_kill ≡ R.add t.limit t.overshoot)
      × (R.le t.limit t.hard_kill ≡ true)
make_time_limits_bounds R limit spec {t} L number finite h =
    let (guard, found, e, k) = make_time_limits-inv R limit spec h in
    let positive = positive_of_guard R L limit number guard in
    let nonneg = overshoot_of_nonneg R L limit positive finite (strip spec) spec found in
    (e, rw e positive, nonneg, rw e k, rw (k, e) (L.le-add limit t.overshoot positive nonneg))
