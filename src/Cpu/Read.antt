-- ===== src/Cpu/Read.antt =====
-- The two functions of src/icpc_verify/cpu.py that read what Linux says of the CPUs.
use problem_verifier.Prelude.{
  ℕ, Bool, true, false, ◌&&◌, ◌||◌, List, [], ◌∷◌, ◌++◌, Option, none, some, Str, codes,
  if◌then◌else◌, ◌==◌, nat_eq, list_eq, contains, filter, leb, split, cut_at, extend_first, take,
}
use problem_verifier.Prelude.Result.{Result, ok, err, ◌>>=◌, value_error, index_error}
use problem_verifier.Runtime.{Runtime}
use problem_verifier.Files.{Files, FilePath, is_file, read_bytes, file_name, iterdir_sorted}
use problem_verifier.Cpu.{Topology, parse_cpu_list}

-- A name that `cpu[0-9]*` matches.
unfoldable pub is_cpu_name : Str → Bool
is_cpu_name (x ∷ y ∷ z ∷ c ∷ rest) = (x ∷ y ∷ z ∷ [] == codes "cpu") && (leb b'0' c && leb c b'9')
is_cpu_name _ = false

-- `name.removeprefix("cpu")` of such a name
abbrev pub cpu_digits : Str → Str
cpu_digits (x ∷ y ∷ z ∷ digits) = digits
cpu_digits name = name

-- `topology[cpu] = siblings`
unfoldable pub put : ℕ → List ℕ → Topology → Topology
put cpu siblings [] = (cpu, siblings) ∷ []
put cpu siblings ((other, others) ∷ topology) =
    let rest = put cpu siblings topology in
    if other == cpu then (cpu, siblings) ∷ topology else (other, others) ∷ rest

-- The characters at which `splitlines` cuts. It takes a carriage return and a newline as one, which
-- leaves out an empty line between them.
abbrev pub is_line_break : ℕ → Bool
is_line_break c =
    (leb 10 c && leb c 13) || (leb 28 c && leb c 30) || contains c (133 ∷ 8232 ∷ 8233 ∷ [])

unfoldable pub lines_of : Str → List Str
lines_of [] = [] ∷ []
lines_of (c ∷ content) =
    let rest = lines_of content in if is_line_break c then [] ∷ rest else extend_first c rest

-- The part behind the first colon, split: an `IndexError` where there is none.
unfoldable pub flags_of_line : Str → Result (List Str)
flags_of_line line = if contains b':' line then ok (split (cut_at b':' line).1) else err index_error

unfoldable pub find_flags : List Str → Result (List Str)
find_flags [] = ok []
find_flags (line ∷ lines) =
    let rest = find_flags lines in if take 5 line == codes "flags" then flags_of_line line else rest

module _ (R : Runtime) where
  abbrev or_error {ℓ} : {A : Type ℓ} → Option A → Result A
  or_error none = err value_error
  or_error (some x) = ok x

  -- `path.read_text(encoding="utf-8")`
  unfoldable pub read_text : FilePath → Files → Result Str
  read_text path files = read_bytes path files >>= λ data'. or_error (R.decode_strict data')

  abbrev pub read_siblings : Bool → FilePath → FilePath → Files → Topology → Result Topology
  read_siblings false entry siblings_file files topology = ok topology
  read_siblings true entry siblings_file files topology =
      or_error (R.nat_of (cpu_digits (file_name entry))) >>= λ cpu.
      read_text siblings_file files >>= λ content.
      parse_cpu_list R content >>= λ siblings. ok (put cpu siblings topology)

  -- The body of the loop of `read_topology`, on the topology so far, and the loop.
  unfoldable pub read_entry : FilePath → Files → Topology → Result Topology
  read_entry entry files topology =
      let siblings_file = entry ++ (codes "topology" ∷ codes "thread_siblings_list" ∷ []) in
      read_siblings (is_file siblings_file files) entry siblings_file files topology

  unfoldable pub read_entries : List FilePath → Files → Topology → Result Topology
  read_entries [] files topology = ok topology
  read_entries (entry ∷ entries) files topology =
      read_entry entry files topology >>= λ more. read_entries entries files more

  unfoldable pub read_topology : FilePath → Files → Result Topology
  read_topology sysfs files =
      read_entries (filter (λ entry. is_cpu_name (file_name entry)) (iterdir_sorted sysfs files))
        files []

  -- The set of flags, as the list of its words.
  unfoldable pub read_cpu_flags : FilePath → Files → Result (List Str)
  read_cpu_flags cpuinfo files =
      read_text cpuinfo files >>= λ content. find_flags (lines_of content)
