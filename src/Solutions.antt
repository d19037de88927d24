-- ===== src/Solutions.antt =====
-- src/icpc_verify/solutions.py.
pub mod Units
pub mod Discovery
use problem_verifier.Prelude.{
  ℕ, Bool, true, false, not, ◌||◌, ◌&&◌, List, [], ◌∷◌, ◌++◌, map, Option, none, some, Str, Bytes,
  codes, if◌then◌else◌, ◌==◌, nat_eq, list_eq, option_eq, leb, contains, filter, join,
}
use problem_verifier.Sorting.{sort_by, unique, lex_le}
use problem_verifier.Files.{
  Files, FilePath, Node, is_file, is_dir, relative_to, lookup, file, file_name, path_text, stem,
  rglob_sorted, iterdir_sorted, parent,
}
use problem_verifier.Languages.{Language, language_eq, value, language_of}
use problem_verifier.JavaMain.{has_main}
use problem_verifier.Runtime.{Runtime}
use problem_verifier.Verdicts.{expected_verdicts}

pub record Solution : Type 0 where
  pub name : Str
  pub rel_path : Str
  pub path : FilePath
  pub expected : Str
  pub language : Option Language
  pub sources : List FilePath
  pub entry : Str
  pub error : Option Str

unfoldable pub is_safe_char : ℕ → Bool
is_safe_char d =
    (leb b'A' d && leb d b'Z')
    || (leb b'a' d && leb d b'z')
    || (leb b'0' d && leb d b'9')
    || contains d (b'.' ∷ b'_' ∷ b'-' ∷ [])

-- `re.compile(r"[^A-Za-z0-9._-]").sub("_", rel_path)`
unfoldable pub sanitize_name : Str → Str
unfolding is_safe_char
sanitize_name rel_path = map (λ c. if is_safe_char c then c else b'_') rel_path

unfoldable pub posix : FilePath → Str
posix p = join (codes "/") p

unfoldable pub no_main_error : Str
no_main_error = codes "java main 메서드를 가진 파일을 찾지 못했습니다"

unfoldable pub many_mains_error : List FilePath → Str
many_mains_error mains =
    codes "java main 메서드가 여러 파일에 있습니다: " ++ join (codes ", ") (map file_name mains)

unfoldable pub no_main_py_error : Str
no_main_py_error = codes "python 소스가 여러 개면 main.py 가 있어야 합니다"

unfoldable pub mixed_error : List Language → Str
mixed_error languages =
    codes "한 solution 에 두 언어가 섞였습니다: " ++ join (codes ", ") (sort_by lex_le (map value languages))

unfoldable pub extension_warning : Str → Str
extension_warning rel_path = codes "지원하지 않는 확장자입니다. 건너뜁니다: " ++ rel_path

unfoldable pub no_source_warning : Str → Str
no_source_warning rel_path = codes "소스 파일이 없습니다. 건너뜁니다: " ++ rel_path

abbrev contents_of : Option Node → Bytes
contents_of (some (file data')) = data'
contents_of _ = []

module _ (R : Runtime) (files : Files) where
  -- `JAVA_MAIN_RE.search(p.read_text(encoding="utf-8", errors="replace"))`
  unfoldable pub holds_main : FilePath → Bool
  holds_main p = has_main (R.decode_replace (contents_of (lookup p files)))

  abbrev java_choice : List FilePath → Str × Option Str
  java_choice [] = ([], some no_main_error)
  java_choice (p ∷ []) = (stem p, none)
  java_choice (p ∷ q ∷ mains) = ([], some (many_mains_error (p ∷ q ∷ mains)))

  unfoldable pub java_entry : List FilePath → Str × Option Str
  java_entry sources = java_choice (filter holds_main sources)

  unfoldable pub find_main_py : List FilePath → FilePath → Str × Option Str
  find_main_py [] root = ([], some no_main_py_error)
  find_main_py (p ∷ sources) root =
      let rest = find_main_py sources root in
      if file_name p == codes "main.py" then (posix (relative_to root p), none) else rest

  unfoldable pub python_entry : List FilePath → FilePath → Str × Option Str
  python_entry [] root = find_main_py [] root
  python_entry (p ∷ []) root = (file_name p, none)
  python_entry (p ∷ q ∷ sources) root = find_main_py (p ∷ q ∷ sources) root

  abbrev entry_of : Language → List FilePath → FilePath → Str × Option Str
  entry_of Language.java sources root = java_entry sources
  entry_of Language.python sources root = python_entry sources root
  entry_of Language.cpp sources root = ([], none)
  entry_of Language.c sources root = ([], none)

  -- `{_language_of(p) for p in sources}`, one of each
  abbrev with_language : Option Language → List Language → List Language
  with_language none languages = languages
  with_language (some language) languages = language ∷ languages

  unfoldable pub collect_languages : List FilePath → List Language
  collect_languages [] = []
  collect_languages (p ∷ sources) = with_language (language_of p) (collect_languages sources)

  unfoldable pub sources_of : FilePath → List FilePath
  sources_of unit =
      filter (λ p. is_file p files && not (language_of p == none)) (rglob_sorted unit files)

  abbrev solution_with :
      FilePath → Str → Str → List FilePath → Option Language → Str × Option Str → Solution
  solution_with unit rel_path expected sources language (entry, error) = record {
    name = sanitize_name rel_path;
    rel_path = rel_path;
    path = unit;
    expected = expected;
    language = language;
    sources = sources;
    entry = entry;
    error = error;
  }

  -- The part of `describe_unit` behind the sources, on the set of their languages.
  unfoldable pub describe_sources :
      FilePath → FilePath → Str → Str → List FilePath → List Language → Option Solution × Option Str
  describe_sources unit source_root rel_path expected sources [] =
      (none, some (no_source_warning rel_path))
  describe_sources unit source_root rel_path expected sources (language ∷ []) = (
    some (
        solution_with unit rel_path expected sources (some language)
          (entry_of language sources source_root)),
    none,
  )
  describe_sources unit source_root rel_path expected sources (a ∷ b ∷ languages) = (
    some (
        solution_with unit rel_path expected sources none
          ([], some (mixed_error (a ∷ b ∷ languages)))),
    none,
  )

  unfoldable pub describe_unit : FilePath → FilePath → Str → Option Solution × Option Str
  describe_unit unit root expected =
      let rel_path = posix (relative_to root unit) in
      if is_dir unit files
      then describe_sources unit unit rel_path expected (sources_of unit)
          (unique (collect_languages (sources_of unit)))
      else if language_of unit == none
      then (none, some (extension_warning rel_path))
      else describe_sources unit (parent unit) rel_path expected (unit ∷ [])
          (unique (collect_languages (unit ∷ [])))

  unfoldable pub stray_file_warning : FilePath → Str
  stray_file_warning child = codes "solutions/ 바로 아래의 파일은 무시합니다: " ++ file_name child

  unfoldable pub unknown_verdict_warning : FilePath → Str
  unknown_verdict_warning child =
      codes "알 수 없는 verdict 디렉토리입니다. 건너뜁니다: solutions/" ++ file_name child

  unfoldable pub no_solutions_warning : FilePath → Str
  no_solutions_warning root = codes "solutions/ 디렉토리가 없습니다: " ++ path_text root

  -- `found` and `warnings`, in the order in which they are appended.
  abbrev pub Findings : Type 0
  Findings = List Solution × List Str

  abbrev add_warning : Option Str → List Str → List Str
  add_warning none warnings = warnings
  add_warning (some warning) warnings = warning ∷ warnings

  abbrev add_solution : Str → Option Solution → List Solution → List Solution
  add_solution filter_glob none found = found
  add_solution filter_glob (some solution) found =
      if not (filter_glob == []) && not (R.fnmatch solution.rel_path filter_glob)
      then found
      else solution ∷ found

  abbrev add_unit : Str → Option Solution × Option Str → Findings → Findings
  add_unit filter_glob (solution, warning) (found, warnings) =
      (add_solution filter_glob solution found, add_warning warning warnings)

  unfoldable pub walk_units : Str → FilePath → Str → List FilePath → Findings → Findings
  walk_units filter_glob root expected [] rest = rest
  walk_units filter_glob root expected (unit ∷ units) rest =
      add_unit filter_glob (describe_unit unit root expected)
        (walk_units filter_glob root expected units rest)

  unfoldable pub walk_children : Str → FilePath → List FilePath → Findings
  walk_children filter_glob root [] = ([], [])
  walk_children filter_glob root (child ∷ children) =
      let (found, warnings) = walk_children filter_glob root children in
      if not (is_dir child files)
      then (found, stray_file_warning child ∷ warnings)
      else if not (contains (file_name child) expected_verdicts)
      then (found, unknown_verdict_warning child ∷ warnings)
      else walk_units filter_glob root (file_name child) (iterdir_sorted child files)
          (found, warnings)

  unfoldable pub discover_solutions : FilePath → Str → Findings
  discover_solutions problem_dir filter_glob =
      let root = problem_dir ++ (codes "solutions" ∷ []) in
      if not (is_dir root files)
      then ([], no_solutions_warning root ∷ [])
      else walk_children filter_glob root (iterdir_sorted root files)
