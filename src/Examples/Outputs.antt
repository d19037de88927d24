-- ===== src/Examples/Outputs.antt =====
-- Outputs that are compared, and the flags of the comparison.
use problem_verifier.Prelude.{
  Bool, true, false, ◌≡◌, refl, ◌↔◌, List, [], ◌∷◌, ◌++◌, codes, Str, arith, split, Both, Option,
  none, some, ◌+◌, length, is_space, nat_eq,
}
use problem_verifier.Prelude.Result.{ok, compare_flag_error}
use problem_verifier.Runtime.Thousandths.{milli}
use problem_verifier.Compare.{
  CompareFlags, fold_case, strip_newlines, compare_tokens, compare_exact, char_message,
  unknown_flag_error, parse_compare_flags, parse_flags_from,
}
use problem_verifier.Splitting.Words.{spread}
use problem_verifier.Compare.Tokens.{TokenMatches, compare_tokens-ok_iff, compare_tokens-respaced}
use problem_verifier.Compare.Exact.{compare_exact-difference}
use problem_verifier.Compare.Flags.{
  render_flags, flags_of, parse_compare_flags-render_flags, parse_compare_flags_error,
}
use problem_verifier.Examples.Fixtures.{R}

abbrev close_flags : CompareFlags R
close_flags = flags_of R false false (some (milli 10)) none

abbrev exact_flags : CompareFlags R
exact_flags = flags_of R true true none none

compare_tokens-ok_iff_example :
    ((compare_tokens R (codes "Yes  0.501\n") (codes "yes 0.5") close_flags).0 ≡ true)
    ↔ Both (TokenMatches R close_flags) (split (codes "Yes  0.501\n")) (split (codes "yes 0.5"))
compare_tokens-ok_iff_example =
    compare_tokens-ok_iff R close_flags (codes "Yes  0.501\n") (codes "yes 0.5")

-- The same two words, far apart and close together.
abbrev wide : List (Str × Str)
wide = (codes " ", codes "3") ∷ (codes "\n\n", codes "4") ∷ []

abbrev narrow : List (Str × Str)
narrow = ([], codes "3") ∷ (codes " ", codes "4") ∷ []

compare_tokens-respaced_example :
    compare_tokens R (spread wide (codes "\n")) (codes "3 4") close_flags
    ≡ compare_tokens R (spread narrow []) (codes "3 4") close_flags
unfolding is_space nat_eq
compare_tokens-respaced_example =
    compare_tokens-respaced R close_flags wide narrow (codes "\n") [] (codes "3 4")
      (
        (refl, tt),
        ground arith,
        (refl, tt),
        (ground arith, (refl, (refl, tt)), ground arith, (refl, tt), tt),
      )
      (refl, tt)
      (tt, ground arith, (refl, tt), (ground arith, (refl, tt), ground arith, (refl, tt), tt)) tt
      refl

compare_exact-difference_example :
    compare_exact R (codes "abc\n") (codes "abd") exact_flags
    ≡ (false, char_message R (1 + length (codes "ab")) b'd' b'c')
unfolding fold_case strip_newlines problem_verifier.Prelude.rstrip nat_eq
compare_exact-difference_example =
    compare_exact-difference R exact_flags (codes "abc\n") (codes "abd") (codes "ab") [] [] b'c'
      b'd' refl refl (ground arith)

parse_compare_flags-render_flags_example :
    parse_compare_flags R (render_flags R true false (some (codes "0.01")) none)
    ≡ ok (flags_of R true false (some (milli 10)) none)
unfolding problem_verifier.Prelude.split_on nat_eq
parse_compare_flags-render_flags_example =
    parse_compare_flags-render_flags R true false (some (codes "0.01")) none refl tt

parse_compare_flags_error_example :
    (text : Str) × (compare_flag_error (unknown_flag_error R (codes "x")) ≡ compare_flag_error text)
unfolding parse_compare_flags parse_flags_from problem_verifier.Compare.bool_flags
    problem_verifier.Prelude.list_eq nat_eq problem_verifier.Compare.tolerance_flags
parse_compare_flags_error_example =
    parse_compare_flags_error R (codes "x" ∷ [])
      {e = compare_flag_error (unknown_flag_error R (codes "x"))} refl
