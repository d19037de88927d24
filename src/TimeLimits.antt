-- ===== src/TimeLimits.antt =====
-- src/icpc_verify/timelimits.py.
pub mod Terms
pub mod Bounds
pub mod Pairs
use problem_verifier.Prelude.{
  ℕ, Bool, true, false, ◌&&◌, ◌||◌, List, [], ◌∷◌, ◌++◌, map, Option, none, some, Str, codes,
  if◌then◌else◌, ◌==◌, nat_eq, list_eq, contains, split_on, strip,
}
use problem_verifier.Prelude.Result.{
  Result, ok, err, ◌>>=◌, ◌>>◌, raise_if, overshoot_spec_error, value_error,
}
use problem_verifier.Runtime.{Runtime}

module _ (R : Runtime) where
  pub record TimeLimits : Type 0 where
    pub limit : R.Float
    pub overshoot : R.Float
    pub hard_kill : R.Float

  -- The longest run of digits in front, and what follows it.
  unfoldable pub span_digits : Str → Str × Str
  span_digits [] = ([], [])
  span_digits (c ∷ text) =
      let (digits, rest) = span_digits text in
      if R.is_digit c then (c ∷ digits, rest) else ([], c ∷ text)

  -- `\d+(?:\.\d+)?` at the start of a text: the match, and what follows it. (The suffix that must
  -- follow is no digit, so the longest match is the only one to try.)
  abbrev pub add_fraction : Str → Str → ℕ → Str × Str → Str × Str
  add_fraction whole rest c ([], after) = (whole, c ∷ rest)
  add_fraction whole rest c (d ∷ fraction, after) =
      if c == b'.' then (whole ++ (c ∷ d ∷ fraction), after) else (whole, c ∷ rest)

  abbrev pub with_fraction : Str → Str → Str × Str
  with_fraction whole [] = (whole, [])
  with_fraction whole (c ∷ rest) = add_fraction whole rest c (span_digits rest)

  abbrev pub number_then : ℕ → Str × Str → Option Str
  number_then suffix ([], rest) = none
  number_then suffix (d ∷ whole, rest) =
      let (number, after) = with_fraction (d ∷ whole) rest in
      if after == suffix ∷ [] || after == suffix ∷ 10 ∷ [] then some number else none

  -- `re.compile(r"^(\d+(?:\.\d+)?)X$").match(term)` and its group 1, for the suffix X. The `$` also
  -- stands before a last newline.
  unfoldable pub match_number : ℕ → Str → Option Str
  unfolding span_digits
  match_number suffix term = number_then suffix (span_digits term)

  -- `float(text)`, which may raise `ValueError`
  unfoldable pub float_or_raise : Str → Result R.Float
  float_or_raise text = elim (R.float_of text) [ some x ↦ ok x | none ↦ err value_error ]

  unfoldable pub term_error : Str → Str
  term_error term = codes "overshoot 항목을 해석할 수 없습니다: " ++ R.repr term

  -- The two tests of `_term_to_seconds`, on what the patterns found.
  abbrev pub percent_of : Str → R.Float → Option Str → Result R.Float
  percent_of term limit (some number) = do
    x ← float_or_raise number
    ok (R.div (R.mul limit x) (R.of_nat 100))
  percent_of term limit none = err (overshoot_spec_error (term_error term))

  abbrev pub seconds_or_percent : Str → R.Float → Option Str → Option Str → Result R.Float
  seconds_or_percent term limit (some number) percent = float_or_raise number
  seconds_or_percent term limit none percent = percent_of term limit percent

  unfoldable pub term_to_seconds : Str → R.Float → Result R.Float
  term_to_seconds term limit =
      seconds_or_percent term limit (match_number b's' term) (match_number b'%' term)

  -- `max` and `min` of two: the first unless the second is larger, or smaller.
  unfoldable pub max_of : R.Float → R.Float → R.Float
  max_of x y = if R.lt x y then y else x

  unfoldable pub min_of : R.Float → R.Float → R.Float
  min_of x y = if R.lt y x then y else x

  unfoldable pub limit_error : R.Float → Str
  limit_error limit = codes "시간제한은 0보다 커야 합니다: " ++ R.show limit

  unfoldable pub empty_error : Str
  empty_error = codes "overshoot 표기가 비어 있습니다"

  unfoldable pub both_error : Str → Str
  both_error overshoot_spec = codes "'|'와 '&'를 함께 쓸 수 없습니다: " ++ R.repr overshoot_spec

  unfoldable pub count_error : Str → Str
  count_error overshoot_spec = codes "항목이 2개여야 합니다: " ++ R.repr overshoot_spec

  abbrev pub combine_terms :
      (R.Float → R.Float → R.Float) → List Str → R.Float → Str → Result R.Float
  combine_terms combine (s ∷ t ∷ []) limit overshoot_spec = do
    x ← term_to_seconds s limit
    y ← term_to_seconds t limit
    ok (combine x y)
  combine_terms combine _ limit overshoot_spec =
      err (overshoot_spec_error (count_error overshoot_spec))

  unfoldable pub overshoot_of : Str → R.Float → Str → Result R.Float
  overshoot_of spec limit overshoot_spec =
      if contains b'|' spec
      then combine_terms max_of (map strip (split_on b'|' spec)) limit overshoot_spec
      else if contains b'&' spec
      then combine_terms min_of (map strip (split_on b'&' spec)) limit overshoot_spec
      else term_to_seconds spec limit

  unfoldable pub make_time_limits : R.Float → Str → Result TimeLimits
  make_time_limits limit overshoot_spec = do
    raise_if (R.le limit (R.of_nat 0)) (overshoot_spec_error (limit_error limit))
    let spec = strip overshoot_spec
    raise_if (spec == []) (overshoot_spec_error empty_error)
    raise_if (contains b'|' spec && contains b'&' spec)
        (overshoot_spec_error (both_error overshoot_spec))
    overshoot ← overshoot_of spec limit overshoot_spec
    ok (record { limit = limit; overshoot = overshoot; hard_kill = R.add limit overshoot })
