-- ===== src/Examples/Validating.antt =====
-- A custom validator's directories, with a message that an earlier testcase left.
use problem_verifier.Prelude.{false, ◌≡◌, refl, [], ◌∷◌, ◌++◌, codes, list_eq, nat_eq}
use problem_verifier.Prelude.Result.{ok}
use problem_verifier.Files.{Files, FilePath, file, is_under}
use problem_verifier.World.{World}
use problem_verifier.Validators.{prepare_validator}
use problem_verifier.Validators.Prepared.{IsPrepared, prepare_validator-IsPrepared}
use problem_verifier.Examples.Judging.{docker}

abbrev io_dir : FilePath
io_dir = codes "w" ∷ codes "io" ∷ []

abbrev data_dir : FilePath
data_dir = io_dir ++ (codes "vdata" ∷ [])

abbrev feedback_dir : FilePath
feedback_dir = io_dir ++ (codes "feedback" ∷ [])

abbrev input : FilePath
input = codes "data" ∷ codes "1.in" ∷ []

abbrev answer : FilePath
answer = codes "data" ∷ codes "1.ans" ∷ []

abbrev output : FilePath
output = io_dir ++ (codes "out" ∷ codes "stdout" ∷ [])

abbrev before : World docker
before = record {
  files =
      (input, file (codes "1 2"))
      ∷ (answer, file (codes "3"))
      ∷ (output, file (codes "4"))
      ∷ (feedback_dir ++ codes "judgemessage.txt" ∷ [], file (codes "old"))
      ∷ [];
  engine = tt;
  calls = [];
}

off_input : is_under data_dir input ≡ false
unfolding is_under list_eq nat_eq
off_input = refl

off_answer : is_under data_dir answer ≡ false
unfolding is_under list_eq nat_eq
off_answer = refl

off_output : is_under data_dir output ≡ false
unfolding is_under list_eq nat_eq
off_output = refl

prepared : (prepare_validator docker input answer output data_dir feedback_dir before).0 ≡ ok tt
unfolding prepare_validator problem_verifier.Files.fresh_dir problem_verifier.Files.mkdir
    problem_verifier.Files.lookup problem_verifier.Files.rmtree is_under list_eq nat_eq
    problem_verifier.Files.copy_file problem_verifier.Files.read_bytes
    problem_verifier.Files.add_dir problem_verifier.Files.write_bytes
prepared = refl

prepare_validator-IsPrepared_example :
    IsPrepared data_dir feedback_dir before.files docker input answer output
      (codes "judgemessage.txt")
      (prepare_validator docker input answer output data_dir feedback_dir before).1.files
prepare_validator-IsPrepared_example =
    prepare_validator-IsPrepared docker io_dir input answer output (codes "judgemessage.txt") before
      off_input off_answer off_output prepared
