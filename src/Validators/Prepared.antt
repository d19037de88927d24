-- ===== src/Validators/Prepared.antt =====
-- What a custom validator finds in the directories that are bound into its container.
use problem_verifier.Prelude.{
  false, [], ◌∷◌, ◌++◌, Str, codes, ◌≡◌, ◌≢◌, refl, ap, ◌∙◌, ◌==◌, nat_eq, list_eq, arith,
}
use problem_verifier.Prelude.Result.{Result, ok, err}
use problem_verifier.Files.{Files, FilePath, is_under, fresh_dir, copy_file, lookup}
use problem_verifier.Files.Fresh.{HasNot, fresh_dir-empties, append-apart, is_under-append}
use problem_verifier.Files.Copied.{
  IsCopy, is_under-neighbour, still-IsSame, now-IsCopy, still-IsCopy, fresh_dir-IsCopy, IsSame,
  fresh_dir-IsSame, apart_of-is_under,
}
use problem_verifier.Runtime.{Runtime}
use problem_verifier.World.{Engine, World, modify, modify-Leaves, modify-Leaves-then}
use problem_verifier.Steps.{Ensures, Ensures-both, Ensures-weaken, Leaves, of_Ends}
use problem_verifier.Validators.{prepare_validator}

feedback-not-vdata : (codes "feedback" == codes "vdata") ≡ false
unfolding list_eq nat_eq
feedback-not-vdata = refl

ans-≢-in : codes "tc.ans" ≢ codes "tc.in"
ans-≢-in e = ground arith

out-≢-in : codes "tc.out" ≢ codes "tc.in"
out-≢-in e = ground arith

out-≢-ans : codes "tc.out" ≢ codes "tc.ans"
out-≢-ans e = ground arith

module _ (data_dir feedback_dir : FilePath) (first : Files) where
  abbrev pub data_file : Str → FilePath
  data_file name = data_dir ++ (name ∷ [])

  -- Three properties of the files at once.
  abbrev Three : (P Q S : Files → Type 0) → Files → Type 0
  Three P Q S files = P files × Q files × S files

  Ensures-Three :
      (P Q S : Files → Type 0) (r : Result Files)
      → Ensures P r
      → Ensures Q r
      → Ensures S r
      → Ensures (Three P Q S) r
  Ensures-Three P Q S (ok made) h k l = (h, k, l)
  Ensures-Three P Q S (err e) h k l = tt

  module _ {R : Runtime} (E : Engine R) (input answer output : FilePath) (name : Str) where
    -- The three files are copies of what they were at first, and no file of this name is among the
    -- validator's.
    abbrev pub IsPrepared : Files → Type 0
    IsPrepared files =
        IsCopy first input (data_file (codes "tc.in")) files
        × IsCopy first answer (data_file (codes "tc.ans")) files
        × IsCopy first output (data_file (codes "tc.out")) files
        × HasNot (feedback_dir ++ (name ∷ [])) files

    abbrev Copies : Files → Type 0
    Copies =
        Three (IsCopy first input (data_file (codes "tc.in")))
          (IsCopy first answer (data_file (codes "tc.ans")))
          (IsCopy first output (data_file (codes "tc.out")))

    feedback_made :
        (w : World E)
        → ((name : Str) → is_under feedback_dir (data_file name) ≡ false)
        → Copies w.files
        → Leaves (λ u w'. IsPrepared w'.files) (modify (fresh_dir feedback_dir) w)
    feedback_made w apart (h, k, l) =
        let q = feedback_dir ++ (name ∷ []) in
        modify-Leaves IsPrepared (fresh_dir feedback_dir) w (
          Ensures-weaken (λ made. Copies made × HasNot q made) IsPrepared
            (fresh_dir feedback_dir w.files)
            (Ensures-both Copies (HasNot q) (fresh_dir feedback_dir w.files)
              (Ensures-Three (IsCopy first input (data_file (codes "tc.in")))
                (IsCopy first answer (data_file (codes "tc.ans")))
                (IsCopy first output (data_file (codes "tc.out"))) (fresh_dir feedback_dir w.files)
                (fresh_dir-IsCopy first feedback_dir input (data_file (codes "tc.in")) w.files
                  (apart (codes "tc.in")) h)
                (fresh_dir-IsCopy first feedback_dir answer (data_file (codes "tc.ans")) w.files
                  (apart (codes "tc.ans")) k)
                (fresh_dir-IsCopy first feedback_dir output (data_file (codes "tc.out")) w.files
                  (apart (codes "tc.out")) l))
              (fresh_dir-empties feedback_dir q w.files (is_under-append feedback_dir (name ∷ []))))
            (λ made h. (h.0.0, h.0.1, h.0.2, h.1)))

    first-IsSame :
        (w : World E) (q : FilePath)
        → w.files ≡ first
        → is_under data_dir q ≡ false
        → Ensures (IsSame q first) (fresh_dir data_dir w.files)
    first-IsSame w q e off =
        Ensures-weaken (IsSame q w.files) (IsSame q first) (fresh_dir data_dir w.files)
          (fresh_dir-IsSame data_dir q w.files off) (λ made same. same ∙ ap (lookup q) e)

    off_data :
        (file_name : Str) (q : FilePath) → is_under data_dir q ≡ false → data_file file_name ≢ q
    off_data file_name q off =
        apart_of-is_under data_dir (data_file file_name) q
          (is_under-append data_dir (file_name ∷ [])) off

    prepare_validator-Leaves :
        (w : World E)
        → ((name : Str) → is_under feedback_dir (data_file name) ≡ false)
        → w.files ≡ first
        → is_under data_dir input ≡ false
        → is_under data_dir answer ≡ false
        → is_under data_dir output ≡ false
        → Leaves
            (λ u w'. IsPrepared w'.files)
            (prepare_validator E input answer output data_dir feedback_dir w)
    unfolding prepare_validator
    prepare_validator-Leaves w apart e off_input off_answer off_output =
        let tc_in = data_file (codes "tc.in") in
        let tc_ans = data_file (codes "tc.ans") in
        let tc_out = data_file (codes "tc.out") in
        modify-Leaves-then (Three (IsSame input first) (IsSame answer first) (IsSame output first))
          (λ u w'. IsPrepared w'.files) (fresh_dir data_dir) _ w
          (Ensures-Three (IsSame input first) (IsSame answer first) (IsSame output first)
            (fresh_dir data_dir w.files) (first-IsSame w input e off_input)
            (first-IsSame w answer e off_answer) (first-IsSame w output e off_output))
          λ u w₁ (i, a, o).
            modify-Leaves-then
              (Three (IsCopy first input tc_in) (IsSame answer first) (IsSame output first))
              (λ u w'. IsPrepared w'.files) (copy_file input tc_in) _ w₁
              (Ensures-Three (IsCopy first input tc_in) (IsSame answer first) (IsSame output first)
                (copy_file input tc_in w₁.files) (now-IsCopy first input tc_in w₁.files i)
                (still-IsSame first input tc_in answer w₁.files
                  (off_data (codes "tc.in") answer off_answer) a)
                (still-IsSame first input tc_in output w₁.files
                  (off_data (codes "tc.in") output off_output) o))
              λ u w₂ (i₂, a₂, o₂).
                modify-Leaves-then
                  (Three (IsCopy first input tc_in) (IsCopy first answer tc_ans)
                    (IsSame output first))
                  (λ u w'. IsPrepared w'.files) (copy_file answer tc_ans) _ w₂
                  (Ensures-Three (IsCopy first input tc_in) (IsCopy first answer tc_ans)
                    (IsSame output first) (copy_file answer tc_ans w₂.files)
                    (still-IsCopy first answer tc_ans input tc_in w₂.files
                      (append-apart data_dir data_dir (codes "tc.ans") (codes "tc.in") ans-≢-in) i₂)
                    (now-IsCopy first answer tc_ans w₂.files a₂)
                    (still-IsSame first answer tc_ans output w₂.files
                      (off_data (codes "tc.ans") output off_output) o₂))
                  λ u w₃ (i₃, a₃, o₃).
                    modify-Leaves-then Copies (λ u w'. IsPrepared w'.files)
                      (copy_file output tc_out) _ w₃
                      (Ensures-Three (IsCopy first input tc_in) (IsCopy first answer tc_ans)
                        (IsCopy first output tc_out) (copy_file output tc_out w₃.files)
                        (still-IsCopy first output tc_out input tc_in w₃.files
                          (append-apart data_dir data_dir (codes "tc.out") (codes "tc.in") out-≢-in)
                          i₃)
                        (still-IsCopy first output tc_out answer tc_ans w₃.files
                          (append-apart data_dir data_dir (codes "tc.out") (codes "tc.ans")
                            out-≢-ans)
                          a₃)
                        (now-IsCopy first output tc_out w₃.files o₃))
                      λ u w₄ h₄. feedback_made w₄ apart h₄

-- What a custom validator finds when its container starts, if everything was copied: the input, the
-- answer and the output of this testcase as they were, and no file that was in the directory for its
-- messages before. The three files are none below the directory that is made for the copies.
pub prepare_validator-IsPrepared :
    {R : Runtime} (E : Engine R) (io_dir input answer output : FilePath) (name : Str) (w : World E)
    → is_under (io_dir ++ (codes "vdata" ∷ [])) input ≡ false
    → is_under (io_dir ++ (codes "vdata" ∷ [])) answer ≡ false
    → is_under (io_dir ++ (codes "vdata" ∷ [])) output ≡ false
    → (prepare_validator E input answer output
        (io_dir ++ (codes "vdata" ∷ []))
        (io_dir ++ (codes "feedback" ∷ []))
        w).0
      ≡ ok tt
    → IsPrepared
        (io_dir ++ (codes "vdata" ∷ []))
        (io_dir ++ (codes "feedback" ∷ []))
        w.files
        E
        input
        answer
        output
        name
        (prepare_validator E input answer output
          (io_dir ++ (codes "vdata" ∷ []))
          (io_dir ++ (codes "feedback" ∷ []))
          w).1.files
prepare_validator-IsPrepared E io_dir input answer output name w off_input off_answer off_output
      returned =
    let data_dir = io_dir ++ (codes "vdata" ∷ []) in
    let feedback_dir = io_dir ++ (codes "feedback" ∷ []) in
    of_Ends (λ e. Unit)
      (λ u w'. IsPrepared data_dir feedback_dir w.files E input answer output name w'.files)
      (prepare_validator E input answer output data_dir feedback_dir w)
      (prepare_validator-Leaves data_dir feedback_dir w.files E input answer output name w
        (λ file_name.
          is_under-neighbour io_dir (file_name ∷ []) (codes "feedback") (codes "vdata")
            feedback-not-vdata)
        refl off_input off_answer off_output)
      returned
