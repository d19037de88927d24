-- ===== src/ProblemConfig/ValidatorDir.antt =====
-- What `_find_validator_dir` returns is a directory.
use problem_verifier.Prelude.{
  Bool, true, false, ◌≡◌, ◌⊎◌, inl, inr, List, [], ◌∷◌, ◌++◌, some, codes, arith, All, filter,
  Bool-cases, inl, inr,
}
use problem_verifier.Prelude.Result.{ok}
use problem_verifier.Files.{Files, FilePath, is_dir, iterdir_sorted}
use problem_verifier.ProblemConfig.{only_candidate, candidates, find_validator_dir}

All-filter : (p : FilePath → Bool) (xs : List FilePath) → All (λ x. p x ≡ true) (filter p xs)
All-filter p [] = tt
All-filter p (x ∷ xs) = ground (arith, All-filter p xs)

only_candidate_dir :
    (files : Files) (found : List FilePath) {p : FilePath}
    → All (λ x. is_dir x files ≡ true) found
    → only_candidate found ≡ ok (some p)
    → is_dir p files ≡ true
only_candidate_dir files [] a h = cc
only_candidate_dir files (q ∷ []) a h = ground arith
only_candidate_dir files (q ∷ r ∷ found) a h = cc

-- A validator that is found is a directory: output_validator/ if there is one.
pub find_validator_dir-is_dir :
    (problem_dir : FilePath) (files : Files) {p : FilePath}
    → find_validator_dir problem_dir files ≡ ok (some p)
    → (is_dir p files ≡ true)
      × ((p ≡ problem_dir ++ (codes "output_validator" ∷ []))
          ⊎ (is_dir (problem_dir ++ (codes "output_validator" ∷ [])) files ≡ false))
unfolding find_validator_dir candidates
find_validator_dir-is_dir problem_dir files h =
    let singular = problem_dir ++ (codes "output_validator" ∷ []) in
    let plural = problem_dir ++ (codes "output_validators" ∷ []) in
    elim (Bool-cases (is_dir singular files)) [
      | inl one ↦ ground arith
      | inr no_one ↦ elim (Bool-cases (is_dir plural files)) [
        | inl many ↦ (
          only_candidate_dir files (filter (λ p. is_dir p files) (iterdir_sorted plural files))
              (All-filter (λ p. is_dir p files) (iterdir_sorted plural files))
              (rw (no_one, many) at h),
          inr no_one,
        )
        | inr none_there ↦ let bad = rw (no_one, none_there) at h in cc
      ]
    ]
