-- ===== src/Compare.antt =====
-- src/icpc_verify/compare.py.
pub mod Flags
pub mod Tokens
pub mod Exact
use problem_verifier.Prelude.{
  ℕ, ◌+◌, Bool, true, false, not, ◌&&◌, ◌||◌, List, [], ◌∷◌, ◌++◌, Option, none, some, Str, Bytes,
  codes, if◌then◌else◌, ◌==◌, nat_eq, list_eq, contains, length, split, rstrip, str_of_nat,
}
use problem_verifier.Prelude.Result.{Result, ok, err, ◌>>=◌, compare_flag_error}
use problem_verifier.Runtime.{Runtime}

unfoldable pub tolerance_flags : List Str
tolerance_flags =
    codes "float_tolerance"
    ∷ codes "float_absolute_tolerance"
    ∷ codes "float_relative_tolerance"
    ∷ []

unfoldable pub bool_flags : List Str
bool_flags = codes "case_sensitive" ∷ codes "space_change_sensitive" ∷ []

module _ (R : Runtime) where
  pub record CompareFlags : Type 0 where
    pub case_sensitive : Bool
    pub space_change_sensitive : Bool
    pub float_absolute_tolerance : Option R.Float
    pub float_relative_tolerance : Option R.Float

  abbrev is_given : Option R.Float → Bool
  is_given none = false
  is_given (some _) = true

  unfoldable pub compare_floats : CompareFlags → Bool
  compare_floats flags =
      is_given flags.float_absolute_tolerance || is_given flags.float_relative_tolerance

  unfoldable pub no_value_error : Str → Str
  no_value_error flag = flag ++ codes " 에 값이 없습니다"

  unfoldable pub no_number_error : Str → Str → Str
  no_number_error flag value = flag ++ (codes " 의 값이 숫자가 아닙니다: " ++ R.repr value)

  unfoldable pub unknown_flag_error : Str → Str
  unknown_flag_error flag = codes "알 수 없는 validator flag 입니다: " ++ R.repr flag

  -- One of `_BOOL_FLAGS`, on the four variables of the loop.
  unfoldable pub set_bool_flag : Str → CompareFlags → CompareFlags
  set_bool_flag flag s =
      if flag == codes "case_sensitive"
      then record s { case_sensitive = true }
      else record s { space_change_sensitive = true }

  unfoldable pub read_tolerance : Str → Str → Result R.Float
  read_tolerance flag value = elim (R.float_of value) [
    | some x ↦ ok x
    | none ↦ err (compare_flag_error (no_number_error flag value))
  ]

  unfoldable pub set_absolute : Str → R.Float → CompareFlags → CompareFlags
  set_absolute flag value s =
      if flag == codes "float_tolerance" || flag == codes "float_absolute_tolerance"
      then record s { float_absolute_tolerance = some value }
      else s

  unfoldable pub set_relative : Str → R.Float → CompareFlags → CompareFlags
  set_relative flag value s =
      if flag == codes "float_tolerance" || flag == codes "float_relative_tolerance"
      then record s { float_relative_tolerance = some value }
      else s

  abbrev pub set_tolerance : Str → R.Float → CompareFlags → CompareFlags
  set_tolerance flag value s = set_relative flag value (set_absolute flag value s)

  -- One of `_TOLERANCE_FLAGS` with its value.
  unfoldable pub tolerate : Str → Str → CompareFlags → Result CompareFlags
  tolerate flag value s = do x ← read_tolerance flag value; ok (set_tolerance flag x s)

  -- The `while` loop over `items[i:]`.
  unfoldable pub parse_flags_from : List Str → CompareFlags → Result CompareFlags
  parse_flags_from [] s = ok s
  parse_flags_from (flag ∷ []) s =
      if contains flag bool_flags
      then ok (set_bool_flag flag s)
      else if contains flag tolerance_flags
      then err (compare_flag_error (no_value_error flag))
      else err (compare_flag_error (unknown_flag_error flag))
  parse_flags_from (flag ∷ value ∷ items) s =
      let plain = parse_flags_from (value ∷ items) (set_bool_flag flag s) in
      let valued = tolerate flag value s >>= parse_flags_from items in
      if contains flag bool_flags
      then plain
      else if contains flag tolerance_flags
      then valued
      else err (compare_flag_error (unknown_flag_error flag))

  abbrev pub no_flags : CompareFlags
  no_flags = record {
    case_sensitive = false;
    space_change_sensitive = false;
    float_absolute_tolerance = none;
    float_relative_tolerance = none;
  }

  unfoldable pub parse_compare_flags : List Str → Result CompareFlags
  parse_compare_flags flags = parse_flags_from flags no_flags

  abbrev pub below_tolerance : R.Float → Option R.Float → Bool
  below_tolerance diff none = false
  below_tolerance diff (some tolerance) = R.le diff tolerance

  -- `_floats_match` on two numbers
  unfoldable pub numbers_match : R.Float → R.Float → CompareFlags → Bool
  numbers_match t a flags =
      if R.is_nan t || R.is_nan a
      then false
      else if R.eq t a
      then true
      else if R.is_inf t || R.is_inf a
      then false
      else if below_tolerance (R.abs (R.sub t a)) flags.float_absolute_tolerance
      then true
      else if is_given flags.float_relative_tolerance && not (R.eq a (R.of_nat 0))
      then below_tolerance (R.div (R.abs (R.sub t a)) (R.abs a)) flags.float_relative_tolerance
      else false

  abbrev pub parsed_match : Option R.Float → Option R.Float → CompareFlags → Option Bool
  parsed_match (some t) (some a) flags = some (numbers_match t a flags)
  parsed_match none a flags = none
  parsed_match (some t) none flags = none

  -- `none` if one of the two is no number.
  unfoldable pub floats_match : Str → Str → CompareFlags → Option Bool
  floats_match team answer flags = parsed_match (R.float_of team) (R.float_of answer) flags

  unfoldable pub fold_case : CompareFlags → Str → Str
  fold_case flags text = if flags.case_sensitive then text else R.lower text

  -- The body of the loop of `_compare_tokens`, on what `_floats_match` says where it is asked.
  abbrev pub settle : Option Bool → Bool → Bool
  settle (some verdict) same_text = verdict
  settle none same_text = same_text

  unfoldable pub token_matches : Str → Str → CompareFlags → Bool
  token_matches t a flags =
      let same_text = fold_case flags t == fold_case flags a in
      if compare_floats flags then settle (floats_match t a flags) same_text else same_text

  unfoldable pub token_message : ℕ → Str → Str → Str
  token_message index a t =
      codes "token "
      ++ (str_of_nat index ++ (codes " 이 다릅니다: 기대 " ++ (R.repr a ++ (codes ", 실제 " ++ R.repr t))))

  -- The loop over `zip(team_tokens, answer_tokens)`: the message of the first mismatch.
  unfoldable pub first_mismatch : ℕ → List Str → List Str → CompareFlags → Option Str
  first_mismatch index (t ∷ team) (a ∷ answer) flags =
      let rest = first_mismatch (index + 1) team answer flags in
      if token_matches t a flags then rest else some (token_message index a t)
  first_mismatch index [] answer flags = none
  first_mismatch index (t ∷ team) [] flags = none

  unfoldable pub token_count_message : ℕ → ℕ → Str
  token_count_message answer team =
      codes "token 개수가 다릅니다: 기대 "
      ++ (str_of_nat answer ++ (codes "개, 실제 " ++ (str_of_nat team ++ codes "개")))

  abbrev pub tokens_outcome : Option Str → List Str → List Str → Bool × Str
  tokens_outcome (some message) team answer = (false, message)
  tokens_outcome none team answer =
      if not (length team == length answer)
      then (false, token_count_message (length answer) (length team))
      else (true, [])

  unfoldable pub compare_tokens : Str → Str → CompareFlags → Bool × Str
  compare_tokens team answer flags =
      let team_tokens = split team in
      let answer_tokens = split answer in
      tokens_outcome (first_mismatch 1 team_tokens answer_tokens flags) team_tokens answer_tokens

  unfoldable pub char_message : ℕ → ℕ → ℕ → Str
  char_message index rc lc =
      str_of_nat index
      ++ (codes "번째 문자가 다릅니다: 기대 " ++ (R.repr (rc ∷ []) ++ (codes ", 실제 " ++ R.repr (lc ∷ []))))

  unfoldable pub length_message : ℕ → ℕ → Str
  length_message right left =
      codes "길이가 다릅니다: 기대 " ++ (str_of_nat right ++ (codes ", 실제 " ++ str_of_nat left))

  -- The loop over `zip(left, right)`, and the `return` behind it.
  unfoldable pub difference_message : ℕ → Str → Str → Str → Str → Str
  difference_message index (lc ∷ left) (rc ∷ right) whole_left whole_right =
      let rest = difference_message (index + 1) left right whole_left whole_right in
      if not (lc == rc) then char_message index rc lc else rest
  difference_message index [] right whole_left whole_right =
      length_message (length whole_right) (length whole_left)
  difference_message index (lc ∷ left) [] whole_left whole_right =
      length_message (length whole_right) (length whole_left)

  -- `text.rstrip("\n")`
  unfoldable pub strip_newlines : Str → Str
  strip_newlines text = rstrip (λ c. c == 10) text

  unfoldable pub compare_exact : Str → Str → CompareFlags → Bool × Str
  compare_exact team answer flags =
      let left = fold_case flags (strip_newlines team) in
      let right = fold_case flags (strip_newlines answer) in
      if left == right then (true, []) else (false, difference_message 1 left right left right)

  unfoldable pub compare_output : Bytes → Bytes → CompareFlags → Bool × Str
  compare_output team answer flags =
      let team_text = R.decode_escape team in
      let answer_text = R.decode_escape answer in
      if flags.space_change_sensitive
      then compare_exact team_text answer_text flags
      else compare_tokens team_text answer_text flags
