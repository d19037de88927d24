-- ===== src/TestData/Collected.antt =====
-- What a successful collection holds.
use problem_verifier.Prelude.{true, ◌≡◌, List, map, All}
use problem_verifier.Files.{Files, FilePath, is_file}
use problem_verifier.TestData.{TestCase, test_case}

-- A case of a data directory: it is made from one of its input files, and its answer is a file.
abbrev pub IsCaseOf : FilePath → Files → TestCase → Type 0
IsCaseOf data_dir files case =
    (case ≡ test_case data_dir case.input_path) × (is_file case.answer_path files ≡ true)

abbrev Collects : FilePath → Files → List FilePath → List TestCase → Type 0
Collects data_dir files inputs cases =
    (map (λ case. case.input_path) cases ≡ inputs) × All (IsCaseOf data_dir files) cases
