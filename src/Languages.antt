-- ===== src/Languages.antt =====
-- The languages of src/icpc_verify/solutions.py and the file suffixes that stand for them.
use problem_verifier.Prelude.{
  List, [], ◌∷◌, Option, none, some, Str, codes, Eq, if◌then◌else◌, ◌==◌, nat_eq, list_eq,
}
use problem_verifier.Files.{FilePath, suffix}

pub data Language : Type 0 where
  cpp c java python : Language

unfoldable pub Language-discrete : Discrete Language
Language-discrete = hlevel

instance unfoldable pub language_eq : Eq Language
unfolding Language-discrete
language_eq = record { dec = Language-discrete }

-- `language.value`
unfoldable pub value : Language → Str
value cpp = codes "cpp"
value c = codes "c"
value java = codes "java"
value python = codes "python"

unfoldable pub extensions : List (Str × Language)
extensions =
    (codes ".cpp", cpp)
    ∷ (codes ".cc", cpp)
    ∷ (codes ".cxx", cpp)
    ∷ (codes ".C", cpp)
    ∷ (codes ".c", c)
    ∷ (codes ".java", java)
    ∷ (codes ".py", python)
    ∷ []

unfoldable pub find_extension : Str → List (Str × Language) → Option Language
find_extension suffix [] = none
find_extension suffix ((extension, language) ∷ more) =
    let rest = find_extension suffix more in if extension == suffix then some language else rest

unfoldable pub language_of : FilePath → Option Language
unfolding extensions find_extension suffix
language_of p = find_extension (suffix p) extensions
