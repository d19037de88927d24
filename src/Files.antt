-- ===== src/Files.antt =====
-- The host's files as far as the program reads and writes them: a list of paths, each a directory or a
-- file with its bytes. Permissions and times are left out, so `chmod` does nothing and `copy2` copies
-- the bytes.
pub mod Fresh
pub mod Copied
use problem_verifier.Prelude.{
  Bool, true, false, not, ◌&&◌, List, [], ◌∷◌, ◌++◌, Option, none, some, Str, Bytes, codes,
  if◌then◌else◌, ◌==◌, nat_eq, list_eq, filter, take, length, reverse, ◌-◌,
}
use problem_verifier.Sorting.{sort_by, unique, lex_le}
use problem_verifier.Prelude.Result.{Result, ok, err, file_not_found, os_error}

-- The parts of a path.
abbrev pub FilePath : Type 0
FilePath = List Str

pub data Node : Type 0 where
  directory : Node
  file : Bytes → Node

abbrev pub Files : Type 0
Files = List (FilePath × Node)

unfoldable pub lookup : FilePath → Files → Option Node
lookup p [] = none
lookup p ((q, node) ∷ files) = let rest = lookup p files in if q == p then some node else rest

abbrev is_file_node : Option Node → Bool
is_file_node (some (file data')) = true
is_file_node (some directory) = false
is_file_node none = false

abbrev is_dir_node : Option Node → Bool
is_dir_node (some (file data')) = false
is_dir_node (some directory) = true
is_dir_node none = false

-- `path.is_file()`, `path.is_dir()`
unfoldable pub is_file : FilePath → Files → Bool
is_file p files = is_file_node (lookup p files)

unfoldable pub is_dir : FilePath → Files → Bool
is_dir p files = is_dir_node (lookup p files)

-- `path.read_bytes()`
abbrev read_node : Option Node → Result Bytes
read_node (some (file data')) = ok data'
read_node (some directory) = err os_error
read_node none = err file_not_found

unfoldable pub read_bytes : FilePath → Files → Result Bytes
read_bytes p files = read_node (lookup p files)

-- Whether a path is `p` or lies below it.
unfoldable pub is_under : FilePath → FilePath → Bool
is_under [] q = true
is_under (x ∷ p) [] = false
is_under (x ∷ p) (y ∷ q) = (x == y) && is_under p q

-- `shutil.rmtree(p, ignore_errors=True)`
unfoldable pub rmtree : FilePath → Files → Files
rmtree p [] = []
rmtree p ((q, node) ∷ files) =
    let rest = rmtree p files in if is_under p q then rest else (q, node) ∷ rest

-- `path.write_bytes(data)`: the new entry hides an old one.
unfoldable pub write_bytes : FilePath → Bytes → Files → Files
write_bytes p data' files = (p, file data') ∷ files

unfoldable pub add_dir : FilePath → Files → Files
add_dir p files = (p, directory) ∷ files

-- `path.mkdir(parents=True)` where the parents are there: it fails if the path is taken.
abbrev pub mkdir_at : FilePath → Option Node → Files → Result Files
mkdir_at p none files = ok (add_dir p files)
mkdir_at p (some node) files = err os_error

unfoldable pub mkdir : FilePath → Files → Result Files
mkdir p files = mkdir_at p (lookup p files) files

-- `path.mkdir(parents=True, exist_ok=True)`
abbrev pub ensure_dir_at : FilePath → Option Node → Files → Result Files
ensure_dir_at p none files = ok (add_dir p files)
ensure_dir_at p (some directory) files = ok files
ensure_dir_at p (some (file data')) files = err os_error

unfoldable pub ensure_dir : FilePath → Files → Result Files
ensure_dir p files = ensure_dir_at p (lookup p files) files

abbrev pub write_result : FilePath → Result Bytes → Files → Result Files
write_result q (ok data') files = ok (write_bytes q data' files)
write_result q (err e) files = err e

-- `shutil.copy2(p, q)` onto a path that is no directory
unfoldable pub copy_file : FilePath → FilePath → Files → Result Files
copy_file p q files = write_result q (read_bytes p files) files

-- What is left of a path below `p`.
unfoldable pub relative_to : FilePath → FilePath → FilePath
relative_to [] q = q
relative_to (x ∷ p) [] = []
relative_to (x ∷ p) (y ∷ q) = relative_to p q

-- `shutil.copytree(p, q, dirs_exist_ok=True)`: the entries below `p`, under `q`, in front of the others.
unfoldable pub copied : FilePath → FilePath → Files → Files
copied p q [] = []
copied p q ((r, node) ∷ files) =
    let rest = copied p q files in
    if is_under p r then (q ++ relative_to p r, node) ∷ rest else rest

unfoldable pub copytree : FilePath → FilePath → Files → Files
copytree p q files = copied p q files ++ files

-- `str(path)` of an absolute path
unfoldable pub path_text : FilePath → Str
path_text [] = codes "/"
path_text (x ∷ []) = codes "/" ++ x
path_text (x ∷ y ∷ p) = codes "/" ++ (x ++ path_text (y ∷ p))

-- `path.name`, `path.parent`, `path.as_posix()` of a relative path
unfoldable pub file_name : FilePath → Str
file_name [] = []
file_name (x ∷ []) = x
file_name (x ∷ y ∷ p) = file_name (y ∷ p)

unfoldable pub parent : FilePath → FilePath
parent [] = []
parent (x ∷ []) = []
parent (x ∷ y ∷ p) = x ∷ parent (y ∷ p)

-- The text from the last dot on, turned round, and what stands before it.
abbrev cut_suffix : Str → Str → Option (Str × Str)
cut_suffix seen [] = none
cut_suffix seen (c ∷ rest) = if c == b'.' then some (c ∷ seen, rest) else cut_suffix (c ∷ seen) rest

-- A suffix needs a character before the dot and one behind it.
abbrev suffix_of : Option (Str × Str) → Str
suffix_of none = []
suffix_of (some ([], before)) = []
suffix_of (some (dot ∷ [], before)) = []
suffix_of (some (dot ∷ c ∷ suffix, [])) = []
suffix_of (some (dot ∷ c ∷ suffix, b ∷ before)) = dot ∷ c ∷ suffix

unfoldable pub name_suffix : Str → Str
name_suffix name = suffix_of (cut_suffix [] (reverse name))

-- `path.suffix` and `path.stem`
unfoldable pub suffix : FilePath → Str
unfolding name_suffix
suffix p = name_suffix (file_name p)

unfoldable pub stem : FilePath → Str
unfolding name_suffix
stem p = take (length (file_name p) - length (name_suffix (file_name p))) (file_name p)

-- The order of paths: part by part, and texts by code points.
unfoldable pub path_le : FilePath → FilePath → Bool
path_le [] q = true
path_le (x ∷ p) [] = false
path_le (x ∷ p) (y ∷ q) = let rest = path_le p q in if x == y then rest else lex_le x y

-- The paths of all entries below `p`, and those directly in it, in no order.
unfoldable pub paths_below : FilePath → Files → List FilePath
paths_below p [] = []
paths_below p ((q, node) ∷ files) =
    let rest = paths_below p files in if is_under p q && not (p == q) then q ∷ rest else rest

abbrev is_single : FilePath → Bool
is_single [] = false
is_single (x ∷ []) = true
is_single (x ∷ y ∷ p) = false

-- `sorted(p.rglob("*"))` and `sorted(p.iterdir())`
unfoldable pub rglob_sorted : FilePath → Files → List FilePath
rglob_sorted p files = sort_by path_le (unique (paths_below p files))

unfoldable pub iterdir_sorted : FilePath → Files → List FilePath
iterdir_sorted p files = filter (λ q. is_single (relative_to p q)) (rglob_sorted p files)

-- `shutil.rmtree(d, ignore_errors=True); d.mkdir(parents=True)`
unfoldable pub fresh_dir : FilePath → Files → Result Files
fresh_dir p files = mkdir p (rmtree p files)
