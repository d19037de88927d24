-- ===== src/TestData.antt =====
-- src/icpc_verify/testdata.py.
pub mod Collected
use problem_verifier.Prelude.{
  ℕ, Bool, true, false, not, List, [], ◌∷◌, ◌++◌, Option, none, some, Str, codes, if◌then◌else◌,
  ◌==◌, nat_eq, list_eq, filter, reverse, take,
}
use problem_verifier.Prelude.Result.{Result, ok, err, ◌>>=◌, ◌>>◌, raise_if, test_data_error}
use problem_verifier.Files.{
  Files, FilePath, is_dir, is_file, file_name, parent, stem, relative_to, rglob_sorted, path_text,
}
use problem_verifier.Solutions.{posix}

pub record TestCase : Type 0 where
  pub id : Str
  pub group : Str
  pub input_path : FilePath
  pub answer_path : FilePath

-- `path.with_suffix(suffix)`
abbrev pub replace_name : Str → FilePath → FilePath
replace_name name [] = []
replace_name name (x ∷ p) = parent (x ∷ p) ++ (name ∷ [])

unfoldable pub with_suffix : Str → FilePath → FilePath
with_suffix suffix p = replace_name (stem p ++ suffix) p

-- Whether a name fits the pattern `*.in`.
abbrev starts_ni : Str → Bool
starts_ni (x ∷ y ∷ z ∷ rest) = x ∷ y ∷ z ∷ [] == codes "ni."
starts_ni _ = false

unfoldable pub is_input : FilePath → Bool
is_input p = starts_ni (reverse (file_name p))

unfoldable pub no_data_error : FilePath → Str
no_data_error data_dir = codes "data/ 디렉토리가 없습니다: " ++ path_text data_dir

unfoldable pub no_answer_error : Str → FilePath → Str
no_answer_error id answer_path = id ++ (codes " 의 .ans 파일이 없습니다: " ++ path_text answer_path)

unfoldable pub no_cases_error : FilePath → Str
no_cases_error data_dir = codes "testcase 를 찾지 못했습니다: " ++ path_text data_dir

unfoldable pub test_case : FilePath → FilePath → TestCase
test_case data_dir input_path =
    let rel = with_suffix [] (relative_to data_dir input_path) in
    record {
      id = posix rel;
      group = posix (parent rel);
      input_path = input_path;
      answer_path = with_suffix (codes ".ans") input_path;
    }

-- The loop over the input files.
unfoldable pub collect_cases : FilePath → Files → List FilePath → Result (List TestCase)
collect_cases data_dir files [] = ok []
collect_cases data_dir files (input_path ∷ inputs) =
    let case = test_case data_dir input_path in
    raise_if (not (is_file case.answer_path files))
      (test_data_error (no_answer_error case.id case.answer_path))
    >> (collect_cases data_dir files inputs >>= λ cases. ok (case ∷ cases))

abbrev pub non_empty : FilePath → List TestCase → Result (List TestCase)
non_empty data_dir [] = err (test_data_error (no_cases_error data_dir))
non_empty data_dir (case ∷ cases) = ok (case ∷ cases)

unfoldable pub input_files : FilePath → Files → List FilePath
input_files data_dir files = filter is_input (rglob_sorted data_dir files)

unfoldable pub collect_testcases : FilePath → Files → Result (List TestCase)
collect_testcases problem_dir files = do
  let data_dir = problem_dir ++ (codes "data" ∷ [])
  raise_if (not (is_dir data_dir files)) (test_data_error (no_data_error data_dir))
  cases ← collect_cases data_dir files (input_files data_dir files)
  non_empty data_dir cases
