-- ===== src/Examples/Problems.antt =====
-- A problem directory with two testcases, a validator and solutions.
use problem_verifier.Prelude.{
  list_eq, nat_eq, split, ℕ, Bool, false, refl, ◌⊎◌, inl, inr, List, [], ◌∷◌, ◌++◌, codes, Str,
  arith, Option, none, some,
}
use problem_verifier.Files.{Files, FilePath, Node, file, directory, is_dir, is_file}
use problem_verifier.TestData.{TestCase}
use problem_verifier.ProblemConfig.{find_validator_dir, ProblemConfig, custom}
use problem_verifier.ProblemConfig.Load.{Yaml}
use problem_verifier.ProblemConfig.Loaded.{HasValidator, load_problem_config-HasValidator}
use problem_verifier.Prelude.Result.{ok, err, value_error}
use problem_verifier.Json.{object, end}
use problem_verifier.Runtime.Thousandths.{milli}
use problem_verifier.Examples.Fixtures.{R}

abbrev problem : FilePath
problem = codes "p" ∷ []

abbrev data_dir : FilePath
data_dir = problem ++ codes "data" ∷ []

abbrev problem_files : Files
problem_files =
    (problem, directory)
    ∷ (data_dir, directory)
    ∷ (data_dir ++ codes "1.in" ∷ [], file (codes "1"))
    ∷ (data_dir ++ codes "1.ans" ∷ [], file (codes "2"))
    ∷ (problem ++ codes "output_validators" ∷ [], directory)
    ∷ (problem ++ codes "output_validators" ∷ codes "v" ∷ [], directory)
    ∷ (problem ++ codes "solutions" ∷ [], directory)
    ∷ (problem ++ codes "solutions" ∷ codes "accepted" ∷ [], directory)
    ∷ (problem ++ codes "solutions" ∷ codes "accepted" ∷ codes "a.py" ∷ [], file (codes "print()"))
    ∷ []

abbrev first_case : TestCase
first_case = record {
  id = codes "1";
  group = [];
  input_path = data_dir ++ codes "1.in" ∷ [];
  answer_path = data_dir ++ codes "1.ans" ∷ [];
}

-- Every document is an empty mapping.
abbrev empty_yaml : Yaml R
empty_yaml = record {
  load = λ content. some (object end);
  text_of = λ value. [];
  float_value = λ value. err value_error;
  nat_value = λ value. err value_error;
  split_shell = λ content. ok (split content);
}

abbrev configured_files : Files
configured_files = (problem ++ codes "problem.yaml" ∷ [], file (codes "{}")) ∷ problem_files

abbrev loaded_config : ProblemConfig R
loaded_config = record {
  name = codes "p";
  time_limit = milli 2000;
  memory_mib = 256;
  time_multiplier = milli 5000;
  validation = custom;
  validator_flags = [];
  validator_dir = some (problem ++ codes "output_validators" ∷ codes "v" ∷ []);
  format_version = codes "legacy";
}

load_problem_config_example : HasValidator empty_yaml configured_files loaded_config
unfolding list_eq nat_eq problem_verifier.Files.lookup problem_verifier.Files.is_file
    problem_verifier.Files.is_dir problem_verifier.Files.read_bytes problem_verifier.Files.is_under
    problem_verifier.Files.relative_to problem_verifier.Files.file_name
    problem_verifier.Files.parent problem_verifier.Files.path_le problem_verifier.Files.paths_below
    problem_verifier.Files.rglob_sorted problem_verifier.Files.iterdir_sorted
    problem_verifier.Sorting.insert_by problem_verifier.Sorting.sort_by
    problem_verifier.Sorting.unique problem_verifier.Sorting.lex_le
    problem_verifier.ProblemConfig.candidates problem_verifier.ProblemConfig.find_validator_dir
    problem_verifier.ProblemConfig.Load.read_yaml problem_verifier.ProblemConfig.Load.top_level
    problem_verifier.ProblemConfig.Load.limits_of problem_verifier.ProblemConfig.Load.mode_of
    problem_verifier.ProblemConfig.Load.flags_source problem_verifier.ProblemConfig.Load.flags_of
    problem_verifier.ProblemConfig.Load.format_of problem_verifier.ProblemConfig.Load.config_with
    problem_verifier.ProblemConfig.Load.config_of
    problem_verifier.ProblemConfig.Load.load_problem_config problem_verifier.Prelude.split
    problem_verifier.Prelude.split_words problem_verifier.Prelude.strip
    problem_verifier.Json.find_member problem_verifier.Sandbox.truth
load_problem_config_example =
    load_problem_config-HasValidator empty_yaml problem configured_files (milli 2000) 256
      {config = loaded_config} refl
