-- ===== src/Files/Fresh.antt =====
-- What a directory that was made anew does not hold.
use problem_verifier.Prelude.{
  true, false, [], ◌∷◌, ◌++◌, Option, none, some, Str, Bytes, ◌≡◌, ◌≢◌, refl, ap, nat_eq, list_eq,
  Bool-cases, arith, ◌∙◌, sym, inl, inr,
}
use problem_verifier.Prelude.Result.{Result, ok, err}
use problem_verifier.Steps.{Ensures}
use problem_verifier.Files.{
  FilePath, Node, file, Files, lookup, is_file, is_under, rmtree, write_bytes, write_result,
  add_dir, mkdir, mkdir_at, fresh_dir, copy_file, file_name, read_bytes,
}

-- An entry at another path is passed over.
pub lookup-other :
    (q r : FilePath) (node : Node) (files : Files)
    → r ≢ q
    → lookup q ((r, node) ∷ files) ≡ lookup q files
unfolding lookup
lookup-other q r node files apart = ground arith

lookup-rmtree-under :
    (p q : FilePath) (files : Files) → is_under p q ≡ true → lookup q (rmtree p files) ≡ none
unfolding rmtree lookup
lookup-rmtree-under p q [] below = refl
lookup-rmtree-under p q ((r, node) ∷ files) below =
    let ih = lookup-rmtree-under p q files below in
    elim (Bool-cases (is_under p r)) [
      | inl e ↦ rw e ih
      | inr e ↦
          let apart : r ≢ q = λ same. cc in rw e (lookup-other q r node (rmtree p files) apart ∙ ih)
    ]

pub lookup-rmtree-apart :
    (p q : FilePath) (files : Files)
    → is_under p q ≡ false
    → lookup q (rmtree p files) ≡ lookup q files
unfolding rmtree lookup
lookup-rmtree-apart p q [] off = refl
lookup-rmtree-apart p q ((r, node) ∷ files) off =
    let ih = lookup-rmtree-apart p q files off in
    elim (Bool-cases (is_under p r)) [
      | inl e ↦
          let apart : r ≢ q = λ same. cc in rw e (ih ∙ sym (lookup-other q r node files apart))
      | inr e ↦ rw e (ground arith)
    ]

is_file-rmtree :
    (p q : FilePath) (files : Files) → is_file q files ≡ false → is_file q (rmtree p files) ≡ false
unfolding is_file
is_file-rmtree p q files h = elim (Bool-cases (is_under p q)) [
  | inl e ↦ rw (lookup-rmtree-under p q files e) refl
  | inr e ↦ rw (lookup-rmtree-apart p q files e) h
]

is_file-add_dir :
    (p q : FilePath) (files : Files) → is_file q files ≡ false → is_file q (add_dir p files) ≡ false
unfolding is_file add_dir lookup
is_file-add_dir p q files h = ground arith

abbrev pub HasNot : FilePath → Files → Type 0
HasNot q files = is_file q files ≡ false

mkdir_at-HasNot :
    (p q : FilePath) (node : Option Node) (files : Files)
    → HasNot q files
    → Ensures (HasNot q) (mkdir_at p node files)
mkdir_at-HasNot p q none files h = is_file-add_dir p q files h
mkdir_at-HasNot p q (some node) files h = tt

-- A directory that is made anew makes no file, and has none in it.
pub fresh_dir-keeps :
    (p q : FilePath) (files : Files) → HasNot q files → Ensures (HasNot q) (fresh_dir p files)
unfolding fresh_dir mkdir
fresh_dir-keeps p q files h =
    mkdir_at-HasNot p q (lookup p (rmtree p files)) (rmtree p files) (is_file-rmtree p q files h)

pub fresh_dir-empties :
    (p q : FilePath) (files : Files) → is_under p q ≡ true → Ensures (HasNot q) (fresh_dir p files)
unfolding fresh_dir mkdir is_file
fresh_dir-empties p q files below =
    mkdir_at-HasNot p q (lookup p (rmtree p files)) (rmtree p files)
      (rw (lookup-rmtree-under p q files below) refl)

write_result-HasNot :
    (p q : FilePath) (data' : Result Bytes) (files : Files)
    → p ≢ q
    → HasNot q files
    → Ensures (HasNot q) (write_result p data' files)
unfolding is_file write_bytes
write_result-HasNot p q (ok data') files apart h = rw (lookup-other q p (file data') files apart) h
write_result-HasNot p q (err e) files apart h = tt

-- A copy makes a file at its target alone.
pub copy_file-HasNot :
    (source target q : FilePath) (files : Files)
    → target ≢ q
    → HasNot q files
    → Ensures (HasNot q) (copy_file source target files)
unfolding copy_file
copy_file-HasNot source target q files apart h =
    write_result-HasNot target q (read_bytes source files) files apart h

-- A path ends with the name that was put behind it, and is below what it was put behind.
file_name-append : (p : FilePath) (x : Str) → file_name (p ++ (x ∷ [])) ≡ x
unfolding file_name
file_name-append [] x = refl
file_name-append (y ∷ []) x = refl
file_name-append (y ∷ z ∷ p) x = file_name-append (z ∷ p) x

pub append-apart : (p q : FilePath) (x y : Str) → x ≢ y → (p ++ (x ∷ [])) ≢ (q ++ (y ∷ []))
append-apart p q x y apart same =
    apart (sym (file_name-append p x) ∙ ap file_name same ∙ file_name-append q y)

pub is_under-append : (p q : FilePath) → is_under p (p ++ q) ≡ true
unfolding is_under
is_under-append [] q = refl
is_under-append (x ∷ p) q = let ih = is_under-append p q in ground arith
