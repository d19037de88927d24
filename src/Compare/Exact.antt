-- ===== src/Compare/Exact.antt =====
-- The comparison by characters.
use native.Mathlib.Nat.{add-zero}
use problem_verifier.Prelude.{
  ℕ, suc, ◌+◌, false, ◌≡◌, ◌≢◌, [], ◌∷◌, ◌++◌, Str, arith, length, nat_eq, list_eq,
}
use problem_verifier.Runtime.{Runtime}
use problem_verifier.Compare.{
  CompareFlags, fold_case, strip_newlines, char_message, difference_message, compare_exact,
}

module _ (R : Runtime) (flags : CompareFlags R) where
  difference_message_lem :
      (index : ℕ) (same left right whole_left whole_right : Str)
      → difference_message R index (same ++ left) (same ++ right) whole_left whole_right
        ≡ difference_message R (index + length same) left right whole_left whole_right
  unfolding difference_message
  difference_message_lem index [] left right wl wr = rw add-zero
  difference_message_lem index (c ∷ same) left right wl wr =
      let shift : index + 1 + length same ≡ index + suc (length same) = omega arith in
      ground (arith, difference_message_lem (index + 1) same left right wl wr, shift)

  append-ne :
      (same : Str) (c d : ℕ) (left right : Str) → c ≢ d → same ++ c ∷ left ≢ same ++ d ∷ right
  append-ne [] c d left right n h = ground arith
  append-ne (x ∷ same) c d left right n h = append-ne same c d left right n (cc)

  -- Where the texts compared agree up to a place and differ there, the outcome is a refusal whose
  -- message names that place, counted from 1, with the character expected and the one found.
  pub compare_exact-difference :
      (team answer same left right : Str) (c d : ℕ)
      → fold_case R flags (strip_newlines R team) ≡ same ++ c ∷ left
      → fold_case R flags (strip_newlines R answer) ≡ same ++ d ∷ right
      → c ≢ d
      → compare_exact R team answer flags ≡ (false, char_message R (1 + length same) d c)
  unfolding compare_exact difference_message
  compare_exact-difference team answer same left right c d ht ha n =
      rw (ht, ha)
        (ground (
          arith,
          append-ne same c d left right n,
          difference_message_lem 1 same (c ∷ left) (d ∷ right) (same ++ c ∷ left)
              (same ++ d ∷ right),
        ))
