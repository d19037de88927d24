-- ===== src/ProblemConfig.antt =====
-- src/icpc_verify/problemcfg.py: the configuration of a problem, and how its validator is found.
pub mod ValidatorDir
pub mod Load
pub mod Loaded
use problem_verifier.Prelude.{
  ℕ, Bool, true, false, not, List, [], ◌∷◌, ◌++◌, map, Option, none, some, Str, codes, Eq,
  if◌then◌else◌, filter, join,
}
use problem_verifier.Prelude.Result.{Result, ok, err, problem_config_error}
use problem_verifier.Runtime.{Runtime}
use problem_verifier.Files.{Files, FilePath, is_dir, iterdir_sorted, file_name}

pub data ValidationMode : Type 0 where
  default custom custom_interactive : ValidationMode

pub record ProblemConfig (R : Runtime) : Type 0 where
  pub name : Str
  pub time_limit : R.Float
  pub memory_mib : ℕ
  pub time_multiplier : R.Float
  pub validation : ValidationMode
  pub validator_flags : List Str
  pub validator_dir : Option FilePath
  pub format_version : Str

unfoldable pub many_dirs_error : List FilePath → Str
many_dirs_error candidates =
    codes "output_validators/ 아래 디렉토리는 1개여야 합니다. 찾은 것: "
    ++ join (codes ", ") (map file_name candidates)

abbrev pub only_candidate : List FilePath → Result (Option FilePath)
only_candidate [] = ok none
only_candidate (p ∷ []) = ok (some p)
only_candidate (p ∷ q ∷ candidates) =
    err (problem_config_error (many_dirs_error (p ∷ q ∷ candidates)))

unfoldable pub candidates : FilePath → Files → List FilePath
candidates plural files = filter (λ p. is_dir p files) (iterdir_sorted plural files)

unfoldable pub find_validator_dir : FilePath → Files → Result (Option FilePath)
find_validator_dir problem_dir files =
    let singular = problem_dir ++ (codes "output_validator" ∷ []) in
    let plural = problem_dir ++ (codes "output_validators" ∷ []) in
    if is_dir singular files
    then ok (some singular)
    else if not (is_dir plural files)
    then ok none
    else only_candidate (candidates plural files)
