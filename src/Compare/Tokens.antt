-- ===== src/Compare/Tokens.antt =====
-- The comparison by tokens, against a description of when two tokens match.
use problem_verifier.Prelude.{
  ℕ, ◌+◌, true, false, ◌≡◌, refl, ◌↔◌, ◌⊎◌, inl, inr, List, [], ◌∷◌, Option, none, some, Str, arith,
  Both, length, split, Bool-cases, ◌==◌, nat_eq, list_eq,
}
use problem_verifier.Splitting.Words.{IsBlank, IsLayout, spread, words_of, split-spread}
use problem_verifier.Runtime.{Runtime}
use problem_verifier.Compare.{
  CompareFlags, compare_floats, numbers_match, parsed_match, floats_match, fold_case, settle,
  token_matches, first_mismatch, tokens_outcome, compare_tokens,
}

module _ (R : Runtime) where
  -- A given tolerance is kept by a difference.
  abbrev pub IsWithin : R.Float → Option R.Float → Type 0
  IsWithin diff none = ⊥
  IsWithin diff (some tolerance) = R.le diff tolerance ≡ true

  -- Two numbers are close: neither is a NaN, and they are equal, or both are finite and within the
  -- absolute tolerance, or within the relative one, which a zero answer never is.
  pub record IsClose (flags : CompareFlags R) (t a : R.Float) : Type 0 where
    pub team_number : R.is_nan t ≡ false
    pub answer_number : R.is_nan a ≡ false
    pub near :
        (R.eq t a ≡ true)
        ⊎ ((R.is_inf t ≡ false)
            × (R.is_inf a ≡ false)
            × (IsWithin (R.abs (R.sub t a)) flags.float_absolute_tolerance
                ⊎ ((R.eq a (R.of_nat 0) ≡ false)
                    × IsWithin
                        (R.div (R.abs (R.sub t a)) (R.abs a))
                        flags.float_relative_tolerance)))

  -- Two tokens match: as numbers where tolerances are given and both read as numbers, and otherwise as
  -- texts, up to case unless the flag says otherwise.
  abbrev pub NumbersOrTexts : CompareFlags R → Str → Str → Option R.Float → Option R.Float → Type 0
  NumbersOrTexts flags t a (some x) (some y) = IsClose flags x y
  NumbersOrTexts flags t a none y = fold_case R flags t ≡ fold_case R flags a
  NumbersOrTexts flags t a (some x) none = fold_case R flags t ≡ fold_case R flags a

  pub data TokenMatches (flags : CompareFlags R) (t a : Str) : Type 0 where
    by_text :
        compare_floats R flags ≡ false
        → fold_case R flags t ≡ fold_case R flags a
        → TokenMatches flags t a
    by_number :
        compare_floats R flags ≡ true
        → NumbersOrTexts flags t a (R.float_of t) (R.float_of a)
        → TokenMatches flags t a

  numbers_match_iff :
      (flags : CompareFlags R) (t a : R.Float)
      → (numbers_match R t a flags ≡ true) ↔ IsClose flags t a
  unfolding numbers_match
  numbers_match_iff flags t a = (λ h. ground arith, λ h. ground arith)

  settle_iff :
      (flags : CompareFlags R) (t a : Str) (x y : Option R.Float)
      → (settle R (parsed_match R x y flags) (fold_case R flags t == fold_case R flags a) ≡ true)
        ↔ NumbersOrTexts flags t a x y
  settle_iff flags t a (some x) (some y) = numbers_match_iff flags x y
  settle_iff flags t a (some x) none = (λ h. ground arith, λ h. ground arith)
  settle_iff flags t a none (some y) = (λ h. ground arith, λ h. ground arith)
  settle_iff flags t a none none = (λ h. ground arith, λ h. ground arith)

  token_matches→ :
      (t a : Str) (flags : CompareFlags R)
      → token_matches R t a flags ≡ true
      → TokenMatches flags t a
  unfolding token_matches floats_match
  token_matches→ t a flags h = elim (Bool-cases (compare_floats R flags)) [
    | inl on ↦ by_number on ((settle_iff flags t a (R.float_of t) (R.float_of a)).0 (rw on at h))
    | inr off ↦ by_text off (ground arith)
  ]

  →token_matches :
      (t a : Str) (flags : CompareFlags R)
      → TokenMatches flags t a
      → token_matches R t a flags ≡ true
  unfolding token_matches floats_match
  →token_matches t a flags (by_text off e) = ground arith
  →token_matches t a flags (by_number on e) =
      rw on ((settle_iff flags t a (R.float_of t) (R.float_of a)).1 e)

  module _ (flags : CompareFlags R) where
    abbrev Pairs : List Str → List Str → Type 0
    Pairs = Both (TokenMatches flags)

    Pairs-of_outcome :
        (index : ℕ) (team answer : List Str)
        → first_mismatch R index team answer flags ≡ none
        → length team ≡ length answer
        → Pairs team answer
    unfolding first_mismatch
    Pairs-of_outcome index [] [] h e = tt
    Pairs-of_outcome index [] (a ∷ answer) h e = absurd (omega arith)
    Pairs-of_outcome index (t ∷ team) [] h e = absurd (omega arith)
    Pairs-of_outcome index (t ∷ team) (a ∷ answer) h e = (
      token_matches→ t a flags (ground arith),
      Pairs-of_outcome (index + 1) team answer (ground arith) (omega arith),
    )

    outcome_of_Pairs :
        (index : ℕ) (team answer : List Str)
        → Pairs team answer
        → (first_mismatch R index team answer flags ≡ none) × (length team ≡ length answer)
    unfolding first_mismatch
    outcome_of_Pairs index [] [] h = (refl, refl)
    outcome_of_Pairs index [] (a ∷ answer) h = absurd h
    outcome_of_Pairs index (t ∷ team) [] h = absurd h
    outcome_of_Pairs index (t ∷ team) (a ∷ answer) h =
        let (fine, same) = outcome_of_Pairs (index + 1) team answer h.1 in
        (rw (→token_matches t a flags h.0) fine, omega arith)

    outcome_true :
        (found : Option Str) (team answer : List Str)
        → (tokens_outcome R found team answer).0 ≡ true
        → (found ≡ none) × (length team ≡ length answer)
    outcome_true (some message) team answer h = cc
    outcome_true none team answer h = (refl, ground arith)

    -- The comparison by tokens accepts exactly the outputs with as many tokens as the answer, each of
    -- which matches the answer's token at its place.
    pub compare_tokens-ok_iff :
        (team answer : Str)
        → ((compare_tokens R team answer flags).0 ≡ true)
          ↔ Both (TokenMatches flags) (split team) (split answer)
    unfolding compare_tokens
    compare_tokens-ok_iff team answer = (
      λ h.
          let (fine, same) = outcome_true _ (split team) (split answer) h in
          Pairs-of_outcome 1 (split team) (split answer) fine same,
      λ h.
          let (fine, same) = outcome_of_Pairs 1 (split team) (split answer) h in
          rw fine (ground arith),
    )

    -- Layout does not count: two outputs with the same words in the same order compare alike, whatever
    -- white space stands before, between and after the words.
    pub compare_tokens-respaced :
        (items other : List (Str × Str)) (tail other_tail answer : Str)
        → IsLayout items
        → IsBlank tail
        → IsLayout other
        → IsBlank other_tail
        → words_of items ≡ words_of other
        → compare_tokens R (spread items tail) answer flags
          ≡ compare_tokens R (spread other other_tail) answer flags
    unfolding compare_tokens
    compare_tokens-respaced items other tail other_tail answer h t h' t' e =
        rw (split-spread items tail h t, split-spread other other_tail h' t', e)
