-- ===== src/Solutions/Discovery.antt =====
-- What `discover_solutions` of src/icpc_verify/solutions.py finds.
use problem_verifier.Prelude.{true, ◌≡◌, ◌≢◌, [], Str, contains, list_eq, nat_eq}
use problem_verifier.Files.{Files}
use problem_verifier.Runtime.{Runtime}
use problem_verifier.Verdicts.{expected_verdicts}
use problem_verifier.Solutions.{Solution, sanitize_name}
use problem_verifier.Solutions.Units.{HasLanguageOrError}

module _ (R : Runtime) (files : Files) (filter_glob : Str) where
  -- A solution as it is found: below a verdict that can be expected, named after its path, with a
  -- language or an error, and matching the filter where one is given.
  pub record IsFound (solution : Solution) : Type 0 where
    pub known : contains solution.expected expected_verdicts ≡ true
    pub named : solution.name ≡ sanitize_name solution.rel_path
    pub ready : HasLanguageOrError solution
    pub selected : filter_glob ≢ [] → R.fnmatch solution.rel_path filter_glob ≡ true
