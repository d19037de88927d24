-- ===== src/Files/Copied.antt =====
-- What a copy, and a directory that is made anew, do to other files.
use problem_verifier.Prelude.{
  true, false, [], ◌∷◌, ◌++◌, ◌==◌, Str, Option, none, some, Bytes, ◌≡◌, ◌≢◌, refl, nat_eq, list_eq,
  arith, ◌∙◌,
}
use problem_verifier.Prelude.Result.{Result, ok, err}
use problem_verifier.Steps.{Ensures, Ensures-weaken}
use problem_verifier.Files.{
  FilePath, Node, directory, file, Files, lookup, is_under, rmtree, write_bytes, write_result,
  add_dir, mkdir, mkdir_at, fresh_dir, copy_file, read_bytes,
}
use problem_verifier.Files.Fresh.{lookup-other, lookup-rmtree-apart}

-- The entry at a path is the one that it was.
abbrev pub IsSame : FilePath → Files → Files → Type 0
IsSame q files made = lookup q made ≡ lookup q files

pub is_under_refl : (p : FilePath) → is_under p p ≡ true
unfolding is_under
is_under_refl [] = refl
is_under_refl (x ∷ p) = let ih = is_under_refl p in ground arith

-- What is not below a directory is not at its path.
pub apart_of-is_under : (p q r : FilePath) → is_under p q ≡ true → is_under p r ≡ false → q ≢ r
apart_of-is_under p q r h k = λ same. cc

mkdir_at-lookup :
    (p q : FilePath) (node found : Option Node) (files : Files)
    → p ≢ q
    → lookup q files ≡ found
    → Ensures (λ made. lookup q made ≡ found) (mkdir_at p node files)
unfolding add_dir
mkdir_at-lookup p q none found files apart e = lookup-other q p directory files apart ∙ e
mkdir_at-lookup p q (some node) found files apart e = tt

pub fresh_dir-IsSame :
    (p q : FilePath) (files : Files)
    → is_under p q ≡ false
    → Ensures (IsSame q files) (fresh_dir p files)
unfolding fresh_dir mkdir
fresh_dir-IsSame p q files off =
    mkdir_at-lookup p q (lookup p (rmtree p files)) (lookup q files) (rmtree p files)
      (apart_of-is_under p p q (is_under_refl p) off) (lookup-rmtree-apart p q files off)

write_result-IsSame :
    (p q : FilePath) (data' : Result Bytes) (files : Files)
    → p ≢ q
    → Ensures (IsSame q files) (write_result p data' files)
unfolding write_bytes
write_result-IsSame p q (ok data') files apart = lookup-other q p (file data') files apart
write_result-IsSame p q (err e) files apart = tt

pub copy_file-IsSame :
    (source target q : FilePath) (files : Files)
    → target ≢ q
    → Ensures (IsSame q files) (copy_file source target files)
unfolding copy_file
copy_file-IsSame source target q files apart =
    write_result-IsSame target q (read_bytes source files) files apart

write_result-reads :
    (p : FilePath) (data' : Result Bytes) (files : Files)
    → Ensures (λ made. read_bytes p made ≡ data') (write_result p data' files)
unfolding write_bytes read_bytes lookup
write_result-reads p (ok data') files = ground arith
write_result-reads p (err e) files = tt

-- A copy can be read where its source could.
pub copy_file-reads :
    (source target : FilePath) (files : Files)
    → Ensures
        (λ made. read_bytes target made ≡ read_bytes source files)
        (copy_file source target files)
unfolding copy_file
copy_file-reads source target files = write_result-reads target (read_bytes source files) files

-- A path below one directory is not below its neighbour.
pub is_under-neighbour :
    (p q : FilePath) (x y : Str)
    → (x == y) ≡ false
    → is_under (p ++ (x ∷ [])) ((p ++ (y ∷ [])) ++ q) ≡ false
unfolding is_under
is_under-neighbour [] q x y e = ground arith
is_under-neighbour (z ∷ p) q x y e = let ih = is_under-neighbour p q x y e in ground arith

module _ (first : Files) where
  -- The file can be read as another one could be at first.
  abbrev pub IsCopy : FilePath → FilePath → Files → Type 0
  IsCopy source target files = read_bytes target files ≡ read_bytes source first

  pub still-IsSame :
      (source target q : FilePath) (files : Files)
      → target ≢ q
      → IsSame q first files
      → Ensures (IsSame q first) (copy_file source target files)
  still-IsSame source target q files apart h =
      Ensures-weaken (IsSame q files) (IsSame q first) (copy_file source target files)
        (copy_file-IsSame source target q files apart) (λ made e. e ∙ h)

  read-IsSame :
      (q : FilePath) (files made : Files)
      → IsSame q files made
      → read_bytes q made ≡ read_bytes q files
  unfolding read_bytes
  read-IsSame q files made e = rw e refl

  pub now-IsCopy :
      (source target : FilePath) (files : Files)
      → IsSame source first files
      → Ensures (IsCopy source target) (copy_file source target files)
  now-IsCopy source target files h =
      Ensures-weaken (λ made. read_bytes target made ≡ read_bytes source files)
        (IsCopy source target) (copy_file source target files) (copy_file-reads source target files)
        (λ made e. e ∙ read-IsSame source first files h)

  pub still-IsCopy :
      (other place source target : FilePath) (files : Files)
      → place ≢ target
      → IsCopy source target files
      → Ensures (IsCopy source target) (copy_file other place files)
  still-IsCopy other place source target files apart h =
      Ensures-weaken (IsSame target files) (IsCopy source target) (copy_file other place files)
        (copy_file-IsSame other place target files apart)
        (λ made e. read-IsSame target files made e ∙ h)

  pub fresh_dir-IsCopy :
      (p source target : FilePath) (files : Files)
      → is_under p target ≡ false
      → IsCopy source target files
      → Ensures (IsCopy source target) (fresh_dir p files)
  fresh_dir-IsCopy p source target files off h =
      Ensures-weaken (IsSame target files) (IsCopy source target) (fresh_dir p files)
        (fresh_dir-IsSame p target files off) (λ made e. read-IsSame target files made e ∙ h)
