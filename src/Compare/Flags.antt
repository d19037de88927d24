-- ===== src/Compare/Flags.antt =====
-- How the validator flags are read.
use problem_verifier.Prelude.{
  Bool, true, false, ◌≡◌, refl, ◌∙◌, inl, inr, List, [], ◌∷◌, ◌++◌, Option, none, some, Str, codes,
  arith, contains, Bool-cases, nat_eq, list_eq,
}
use problem_verifier.Prelude.Result.{ok, err, >>=-eq-ok, >>=-eq-err, compare_flag_error, Exc}
use problem_verifier.Runtime.{Runtime}
use problem_verifier.Compare.{
  CompareFlags, tolerance_flags, bool_flags, set_bool_flag, read_tolerance, tolerate, set_absolute,
  set_relative, parse_flags_from, no_flags, parse_compare_flags,
}

module _ (R : Runtime) where
  -- A list of flags that is read without error can be continued: what follows is read on top of it, so
  -- that a later flag overrides an earlier one.
  pub parse_flags_from-append :
      (flags more : List Str) (s : CompareFlags R) {t : CompareFlags R}
      → parse_flags_from R flags s ≡ ok t
      → parse_flags_from R (flags ++ more) s ≡ parse_flags_from R more t
  unfolding parse_flags_from
  parse_flags_from-append [] more s h = ground arith
  parse_flags_from-append (flag ∷ []) [] s h = ground arith
  parse_flags_from-append (flag ∷ []) (value ∷ more) s h = ground arith
  parse_flags_from-append (flag ∷ value ∷ flags) more s {t} h =
      elim (Bool-cases (contains flag bool_flags)) [
        | inl plain ↦
            rw plain (
              parse_flags_from-append (value ∷ flags) more (set_bool_flag R flag s) (rw plain at h))
        | inr other ↦ elim (Bool-cases (contains flag tolerance_flags)) [
          | inl valued ↦
              let (s', read, h') =
                >>=-eq-ok (tolerate R flag value s) _ (rw (other, valued) at h) in
              rw (other, valued, read) (parse_flags_from-append flags more s' h')
          | inr unknown ↦ let bad = rw (other, unknown) at h in cc
        ]
      ]

  tolerate_error :
      (flag value : Str) (s : CompareFlags R) {e : Exc}
      → tolerate R flag value s ≡ err e
      → (text : Str) × (e ≡ compare_flag_error text)
  unfolding tolerate read_tolerance
  tolerate_error flag value s h = ground arith

  pub parse_flags_from_error :
      (flags : List Str) (s : CompareFlags R) {e : Exc}
      → parse_flags_from R flags s ≡ err e
      → (text : Str) × (e ≡ compare_flag_error text)
  unfolding parse_flags_from
  parse_flags_from_error [] s h = cc
  parse_flags_from_error (flag ∷ []) s h = ground arith
  parse_flags_from_error (flag ∷ value ∷ flags) s h = elim (Bool-cases (contains flag bool_flags)) [
    | inl plain ↦ parse_flags_from_error (value ∷ flags) (set_bool_flag R flag s) (rw plain at h)
    | inr other ↦ elim (Bool-cases (contains flag tolerance_flags)) [
      | inl valued ↦ elim (>>=-eq-err (tolerate R flag value s) _ (rw (other, valued) at h)) [
        | inl first ↦ tolerate_error flag value s first
        | inr (s', read, later) ↦ parse_flags_from_error flags s' later
      ]
      | inr unknown ↦ let bad = rw (other, unknown) at h in ground arith
    ]
  ]

  -- The texts of a set of flags.
  abbrev pub word_if : Bool → Str → List Str
  word_if true word = word ∷ []
  word_if false word = []

  abbrev pub pair_if : Str → Option Str → List Str
  pair_if word none = []
  pair_if word (some value) = word ∷ value ∷ []

  -- A tolerance and the text that it is read from.
  abbrev pub Reads : Option Str → Option R.Float → Type 0
  Reads none none = Unit
  Reads (some text) (some x) = R.float_of text ≡ some x
  Reads none (some x) = ⊥
  Reads (some text) none = ⊥

  pub render_flags : Bool → Bool → Option Str → Option Str → List Str
  render_flags case space absolute relative =
      word_if case (codes "case_sensitive")
      ++ (word_if space (codes "space_change_sensitive")
          ++ (pair_if (codes "float_absolute_tolerance") absolute
              ++ pair_if (codes "float_relative_tolerance") relative))

  abbrev pub flags_of : Bool → Bool → Option R.Float → Option R.Float → CompareFlags R
  flags_of case space absolute relative = record {
    case_sensitive = case;
    space_change_sensitive = space;
    float_absolute_tolerance = absolute;
    float_relative_tolerance = relative;
  }

  parse_case :
      (case : Bool)
      → parse_flags_from R (word_if case (codes "case_sensitive")) (flags_of false false none none)
        ≡ ok (flags_of case false none none)
  unfolding parse_flags_from bool_flags set_bool_flag list_eq nat_eq
  parse_case true = refl
  parse_case false = refl

  parse_space :
      (case space : Bool)
      → parse_flags_from R
          (word_if space (codes "space_change_sensitive"))
          (flags_of case false none none)
        ≡ ok (flags_of case space none none)
  unfolding parse_flags_from bool_flags set_bool_flag list_eq nat_eq
  parse_space case true = refl
  parse_space case false = refl

  read_tolerance_ok :
      (flag value : Str) {x : R.Float}
      → R.float_of value ≡ some x
      → read_tolerance R flag value ≡ ok x
  unfolding read_tolerance
  read_tolerance_ok flag value h = ground arith

  parse_absolute :
      (case space : Bool) (value : Option Str) (x : Option R.Float)
      → Reads value x
      → parse_flags_from R
          (pair_if (codes "float_absolute_tolerance") value)
          (flags_of case space none none)
        ≡ ok (flags_of case space x none)
  unfolding parse_flags_from bool_flags tolerance_flags tolerate set_absolute set_relative list_eq
      nat_eq
  parse_absolute case space none none h = refl
  parse_absolute case space none (some x) h = absurd h
  parse_absolute case space (some value) none h = absurd h
  parse_absolute case space (some value) (some x) h = rw (read_tolerance_ok _ value h)

  parse_relative :
      (case space : Bool) (absolute : Option R.Float) (value : Option Str) (x : Option R.Float)
      → Reads value x
      → parse_flags_from R
          (pair_if (codes "float_relative_tolerance") value)
          (flags_of case space absolute none)
        ≡ ok (flags_of case space absolute x)
  unfolding parse_flags_from bool_flags tolerance_flags tolerate set_absolute set_relative list_eq
      nat_eq
  parse_relative case space absolute none none h = refl
  parse_relative case space absolute none (some x) h = absurd h
  parse_relative case space absolute (some value) none h = absurd h
  parse_relative case space absolute (some value) (some x) h = rw (read_tolerance_ok _ value h)

  -- Every setting can be written as flags, and is read back from them, with tolerances whose texts
  -- `float` reads as them.
  pub parse_compare_flags-render_flags :
      (case space : Bool) (absolute relative : Option Str) {x y : Option R.Float}
      → Reads absolute x
      → Reads relative y
      → parse_compare_flags R (render_flags case space absolute relative)
        ≡ ok (flags_of case space x y)
  unfolding parse_compare_flags render_flags
  parse_compare_flags-render_flags case space absolute relative {x} {y} hx hy =
      parse_flags_from-append _ _ _ (parse_case case)
      ∙ parse_flags_from-append _ _ _ (parse_space case space)
      ∙ parse_flags_from-append _ _ _ (parse_absolute case space absolute x hx)
      ∙ parse_relative case space x relative y hy

  -- Flags that cannot be read fail with a `CompareFlagError`, and with no other exception.
  pub parse_compare_flags_error :
      (flags : List Str) {e : Exc}
      → parse_compare_flags R flags ≡ err e
      → (text : Str) × (e ≡ compare_flag_error text)
  unfolding parse_compare_flags
  parse_compare_flags_error flags h = parse_flags_from_error flags (no_flags R) h

  -- A setting that is read from some flags stays when more flags follow, and each of these overrides
  -- it: the longer list is read as the second part on top of the first.
  pub parse_compare_flags-append :
      (flags more : List Str) {t : CompareFlags R}
      → parse_compare_flags R flags ≡ ok t
      → parse_compare_flags R (flags ++ more) ≡ parse_flags_from R more t
  unfolding parse_compare_flags
  parse_compare_flags-append flags more h = parse_flags_from-append flags more (no_flags R) h
