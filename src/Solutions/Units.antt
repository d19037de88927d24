-- ===== src/Solutions/Units.antt =====
-- Names and entry points of the solutions that src/icpc_verify/solutions.py describes.
use problem_verifier.Prelude.{
  ℕ, Bool, true, false, not, ◌||◌, ◌≡◌, refl, ◌≢◌, ◌⊎◌, inl, inr, List, [], ◌∷◌, ◌++◌, map, Option,
  none, some, Str, codes, All, if◌then◌else◌, leb, contains, ◌==◌, option_eq, filter,
}
use problem_verifier.Files.{Files, FilePath, is_dir, relative_to, parent}
use problem_verifier.Languages.{Language, language_of, language_eq}
use problem_verifier.Sorting.{unique}
use problem_verifier.Runtime.{Runtime}
use problem_verifier.Solutions.{
  Solution, is_safe_char, sanitize_name, posix, mixed_error, describe_sources, describe_unit,
  extension_warning, sources_of, collect_languages,
}

abbrev pub IsSafe : Str → Type 0
IsSafe = All (λ c. is_safe_char c ≡ true)

-- A solution that can be compiled has a language; any other has a text that says why not.
abbrev pub HasLanguageOrError : Solution → Type 0
HasLanguageOrError solution =
    ((language : Language) × (solution.language ≡ some language))
    ⊎ ((c : ℕ) × (text : Str) × (solution.error ≡ some (c ∷ text)))

abbrev pub OnSome : {A : Type 0} → (A → Type 0) → Option A → Type 0
OnSome P none = Unit
OnSome P (some a) = P a

OnSome-if :
    {A B : Type 0} (P : A → Type 0) (test : Bool) (x y : Option A × B)
    → OnSome P x.0
    → OnSome P y.0
    → OnSome P (if test then x else y).0
OnSome-if P true x y h k = h
OnSome-if P false x y h k = k

module _ (R : Runtime) (files : Files) where
  abbrev pub IsDescribed : Str → Solution → Type 0
  IsDescribed expected solution =
      (solution.expected ≡ expected)
      × (solution.name ≡ sanitize_name solution.rel_path)
      × HasLanguageOrError solution

  describe_sources_lem :
      (unit root : FilePath) (rel_path expected : Str) (sources : List FilePath)
      (languages : List Language)
      → OnSome
          (IsDescribed expected)
          (describe_sources R files unit root rel_path expected sources languages).0
  unfolding describe_sources mixed_error
  describe_sources_lem unit root rel_path expected sources [] = tt
  describe_sources_lem unit root rel_path expected sources (l ∷ []) = (refl, refl, inl (l, refl))
  describe_sources_lem unit root rel_path expected sources (a ∷ b ∷ more) =
      (refl, refl, inr (_, _, refl))

  pub describe_unit-IsDescribed :
      (unit root : FilePath) (expected : Str)
      → OnSome (IsDescribed expected) (describe_unit R files unit root expected).0
  unfolding describe_unit
  describe_unit-IsDescribed unit root expected =
      let rel_path = posix (relative_to root unit) in
      OnSome-if (IsDescribed expected) (is_dir unit files) _ _
        (describe_sources_lem unit unit rel_path expected (sources_of R files unit)
          (unique (collect_languages R files (sources_of R files unit))))
        (OnSome-if (IsDescribed expected) (language_of unit == none)
          (none, some (extension_warning rel_path)) _ tt
          (describe_sources_lem unit (parent unit) rel_path expected (unit ∷ [])
            (unique (collect_languages R files (unit ∷ [])))))
