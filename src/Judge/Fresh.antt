-- ===== src/Judge/Fresh.antt =====
-- That a testcase is not judged by what an earlier one left behind.
use problem_verifier.Prelude.{
  Bool, true, false, List, [], ◌∷◌, none, Str, codes, ◌≡◌, ◌≢◌, refl, nat_eq, list_eq,
}
use problem_verifier.Prelude.Result.{Result}
use problem_verifier.Files.{FilePath, is_under, fresh_dir, copy_file}
use problem_verifier.Files.Fresh.{
  HasNot, fresh_dir-keeps, fresh_dir-empties, copy_file-HasNot, append-apart, is_under-append,
}
use problem_verifier.Runtime.{Runtime}
use problem_verifier.TimeLimits.{TimeLimits}
use problem_verifier.TestData.{TestCase}
use problem_verifier.ProblemConfig.{ProblemConfig}
use problem_verifier.Validators.{BuiltValidator}
use problem_verifier.World.{Engine, World, modify, modify-Leaves, modify-Leaves-then}
use problem_verifier.Steps.{Leaves, Leaves-then}
use problem_verifier.Sandbox.{SandboxResult, run_sandbox}
use problem_verifier.Sandbox.Silent.{IsSilent, LeavesNone, LeavesNone-then, run_sandbox-LeavesNone}
use problem_verifier.Judge.{JudgeOptions}
use problem_verifier.Judge.Run.{at, collect_if, prepare_run, run_one_spec, run_one_testcase}
use problem_verifier.Judge.RunPair.{collect_pair_if, interactive_spec, run_interactive_testcase}

-- The file in which a runner leaves what it measured.
abbrev pub run_json : FilePath → FilePath
run_json io_dir = at (at io_dir (codes "out")) (codes "run.json")

run_json-below : (io_dir : FilePath) → is_under (at io_dir (codes "out")) (run_json io_dir) ≡ true
run_json-below io_dir = is_under-append (at io_dir (codes "out")) (codes "run.json" ∷ [])

module _ {R : Runtime} (E : Engine R) (io_dir : FilePath) where
  abbrev LeftNone : {A : Type 0} → Result A × World E → Type 0
  LeftNone = LeavesNone E (run_json io_dir)

  tc-apart : (dir : FilePath) (x : Str) → x ≢ codes "run.json" → at dir x ≢ run_json io_dir
  tc-apart dir x apart = append-apart dir (at io_dir (codes "out")) x (codes "run.json") apart

  module _ (silent : IsSilent E (run_json io_dir)) where
    collect_if-none :
        (written : Bool) (out_dir : FilePath) (result : SandboxResult) (w : World E)
        → written ≡ false
        → Leaves (λ run w'. run.measurement ≡ none) (collect_if E written out_dir result w)
    collect_if-none true out_dir result w e = cc
    collect_if-none false out_dir result w e = refl

    prepare_run-LeftNone :
        (case : TestCase) (run_dir : FilePath) (w : World E)
        → LeftNone (prepare_run E case run_dir (at io_dir (codes "out")) w)
    unfolding prepare_run
    prepare_run-LeftNone case run_dir w =
        Leaves-then (λ u w'. HasNot (run_json io_dir) w'.files) (modify (fresh_dir run_dir) w) _
          λ u w₁.
            modify-Leaves-then (HasNot (run_json io_dir))
              (λ u w'. HasNot (run_json io_dir) w'.files) (fresh_dir (at io_dir (codes "out"))) _ w₁
              (fresh_dir-empties (at io_dir (codes "out")) (run_json io_dir) w₁.files
                (run_json-below io_dir))
              λ u w₂ h₂.
                modify-Leaves (HasNot (run_json io_dir))
                  (copy_file case.input_path (at run_dir (codes "tc.in"))) w₂
                  (copy_file-HasNot case.input_path (at run_dir (codes "tc.in")) (run_json io_dir)
                    w₂.files (tc-apart run_dir (codes "tc.in") (λ e. cc)) h₂)

    pub run_one_testcase-none :
        (case : TestCase) (run_argv : List Str) (work_dir : FilePath) (limits : TimeLimits R)
        (options : JudgeOptions R) (w : World E)
        → Leaves
            (λ run w'. run.measurement ≡ none)
            (run_one_testcase E case run_argv work_dir io_dir limits options w)
    unfolding run_one_testcase
    run_one_testcase-none case run_argv work_dir limits options w =
        let run_dir = at io_dir (codes "in") in
        let out_dir = at io_dir (codes "out") in
        LeavesNone-then E (run_json io_dir) (λ run w'. run.measurement ≡ none)
          (prepare_run E case run_dir out_dir w) _ (prepare_run-LeftNone case run_dir w)
          λ u w₁ h₁.
            LeavesNone-then E (run_json io_dir) (λ run w'. run.measurement ≡ none)
              (run_sandbox E (run_one_spec E run_argv work_dir run_dir out_dir limits options) w₁) _
              (run_sandbox-LeavesNone E (run_json io_dir) silent
                (run_one_spec E run_argv work_dir run_dir out_dir limits options) w₁ h₁)
              λ result w₂ h₂. collect_if-none _ out_dir result w₂ h₂

    collect_pair_if-none :
        (written : Bool) (out_dir feedback_dir : FilePath) (result : SandboxResult) (w : World E)
        → written ≡ false
        → Leaves
            (λ run w'. run.pair ≡ none)
            (collect_pair_if E written out_dir feedback_dir result w)
    collect_pair_if-none true out_dir feedback_dir result w e = cc
    collect_pair_if-none false out_dir feedback_dir result w e = refl

    pub run_interactive_testcase-none :
        (case : TestCase) (run_argv : List Str) (validator : BuiltValidator) (work_dir : FilePath)
        (config : ProblemConfig R) (limits : TimeLimits R) (options : JudgeOptions R) (w : World E)
        → Leaves
            (λ run w'. run.pair ≡ none)
            (run_interactive_testcase E case run_argv validator work_dir io_dir config limits
              options w)
    unfolding run_interactive_testcase
    run_interactive_testcase-none case run_argv validator work_dir config limits options w =
        let q = run_json io_dir in
        let data_dir = at io_dir (codes "idata") in
        let out_dir = at io_dir (codes "out") in
        let feedback_dir = at io_dir (codes "feedback") in
        Leaves-then (λ run w'. run.pair ≡ none) (modify (fresh_dir data_dir) w) _
          λ u w₁.
            modify-Leaves-then (HasNot (run_json io_dir)) (λ run w'. run.pair ≡ none)
              (fresh_dir out_dir) _ w₁
              (fresh_dir-empties out_dir q w₁.files (run_json-below io_dir))
              λ u w₂ h₂.
                modify-Leaves-then (HasNot (run_json io_dir)) (λ run w'. run.pair ≡ none)
                  (fresh_dir feedback_dir) _ w₂ (fresh_dir-keeps feedback_dir q w₂.files h₂)
                  λ u w₃ h₃.
                    modify-Leaves-then (HasNot (run_json io_dir)) (λ run w'. run.pair ≡ none)
                      (copy_file case.input_path (at data_dir (codes "tc.in"))) _ w₃
                      (copy_file-HasNot case.input_path (at data_dir (codes "tc.in")) q w₃.files
                        (tc-apart data_dir (codes "tc.in") (λ e. cc)) h₃)
                      λ u w₄ h₄.
                        modify-Leaves-then (HasNot (run_json io_dir)) (λ run w'. run.pair ≡ none)
                          (copy_file case.answer_path (at data_dir (codes "tc.ans"))) _ w₄
                          (copy_file-HasNot case.answer_path (at data_dir (codes "tc.ans")) q
                            w₄.files (tc-apart data_dir (codes "tc.ans") (λ e. cc)) h₄)
                          λ u w₅ h₅.
                            let spec =
                              interactive_spec E run_argv validator work_dir data_dir out_dir
                                feedback_dir config.validator_flags limits options in
                            LeavesNone-then E q (λ run w'. run.pair ≡ none) (run_sandbox E spec w₅)
                              _ (run_sandbox-LeavesNone E q silent spec w₅ h₅)
                              λ result w₆ h₆.
                                collect_pair_if-none _ out_dir feedback_dir result w₆ h₆
