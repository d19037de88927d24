-- ===== src/Examples/Limits.antt =====
-- Time limits with an overshoot.
use problem_verifier.Prelude.{
  true, ◌≡◌, refl, ◌⊎◌, [], ◌∷◌, ◌++◌, codes, arith, Str, is_space, contains, rstrip, lstrip,
  split_on, nat_eq,
}
use problem_verifier.Prelude.Result.{ok}
use problem_verifier.Runtime.Thousandths.{milli}
use problem_verifier.Runtime.Thousandths
use problem_verifier.Runtime.Milli.{MilliRuntime-IsLawful}
use problem_verifier.TimeLimits.{TimeLimits, make_time_limits, term_to_seconds}
use problem_verifier.TimeLimits.Bounds.{make_time_limits_bounds}
use problem_verifier.TimeLimits.Pairs.{IsTerm, make_time_limits_pair}
use problem_verifier.Examples.Fixtures.{R, no_json}

make_time_limits_bounds_example :
    (milli 2000 ≡ milli 2000)
    × (Thousandths.lt (milli 0) (milli 2000) ≡ true)
    × (Thousandths.le (milli 0) (milli 500) ≡ true)
    × (milli 2500 ≡ Thousandths.add (milli 2000) (milli 500))
    × (Thousandths.le (milli 2000) (milli 2500) ≡ true)
unfolding make_time_limits problem_verifier.Prelude.list_eq problem_verifier.Prelude.strip nat_eq
    problem_verifier.TimeLimits.overshoot_of term_to_seconds
    problem_verifier.TimeLimits.match_number problem_verifier.TimeLimits.float_or_raise split_on
make_time_limits_bounds_example =
    make_time_limits_bounds R (milli 2000) (codes "25%")
      {t = record { limit = milli 2000; overshoot = milli 500; hard_kill = milli 2500 }}
      (MilliRuntime-IsLawful no_json) refl refl refl

half_second-IsTerm : IsTerm (codes "0.5s")
unfolding is_space nat_eq
half_second-IsTerm = record {
  solid = (refl, (refl, (refl, (refl, tt))));
  no_bar = (refl, (refl, (refl, (refl, tt))));
  no_amp = (refl, (refl, (refl, (refl, tt))));
}

tenth-IsTerm : IsTerm (codes "10%")
unfolding is_space nat_eq
tenth-IsTerm = record {
  solid = (refl, (refl, (refl, tt)));
  no_bar = (refl, (refl, (refl, tt)));
  no_amp = (refl, (refl, (refl, tt)));
}

make_time_limits_pair_example :
    ((t : TimeLimits R) × (make_time_limits R (milli 2000) (codes "0.5s" ++ b'|' ∷ codes "10%")
        ≡ ok t)
      × ((t.overshoot ≡ milli 500) ⊎ (t.overshoot ≡ milli 200))
      × (Thousandths.le (milli 500) t.overshoot ≡ true)
      × (Thousandths.le (milli 200) t.overshoot ≡ true))
    × ((t : TimeLimits R) × (make_time_limits R (milli 2000) (codes "0.5s" ++ b'&' ∷ codes "10%")
          ≡ ok t)
        × ((t.overshoot ≡ milli 500) ⊎ (t.overshoot ≡ milli 200))
        × (Thousandths.le t.overshoot (milli 500) ≡ true)
        × (Thousandths.le t.overshoot (milli 200) ≡ true))
unfolding term_to_seconds problem_verifier.TimeLimits.match_number problem_verifier.Prelude.list_eq
    nat_eq problem_verifier.TimeLimits.float_or_raise split_on
make_time_limits_pair_example =
    make_time_limits_pair R (milli 2000) (codes "0.5s") (codes "10%")
      (MilliRuntime-IsLawful no_json) refl refl refl half_second-IsTerm tenth-IsTerm refl refl
