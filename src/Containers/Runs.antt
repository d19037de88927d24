-- ===== src/Containers/Runs.antt =====
-- No container is left by the runs of the testcases.
use problem_verifier.Prelude.{Bool, true, false, List, Str, codes}
use problem_verifier.Files.{FilePath, fresh_dir, copy_file}
use problem_verifier.Runtime.{Runtime}
use problem_verifier.TimeLimits.{TimeLimits}
use problem_verifier.TestData.{TestCase}
use problem_verifier.ProblemConfig.{ProblemConfig}
use problem_verifier.Interactive.{read_measurement, read_pair_run}
use problem_verifier.Validators.{BuiltValidator}
use problem_verifier.Verdicts.{verdict_eq}
use problem_verifier.World.{Engine, World}
use problem_verifier.Sandbox.{SandboxResult}
use problem_verifier.Judge.{JudgeOptions}
use problem_verifier.Judge.Run.{
  at, load_json, ensure_output, collect_run, collect_if, prepare_run, run_one_spec,
  run_one_testcase,
}
use problem_verifier.Judge.RunPair.{
  collect_pair, collect_pair_if, interactive_spec, run_interactive_testcase,
}
use problem_verifier.Containers.{
  IsCleaned, Tidy, Tidy-then, modify-then, run_sandbox-then, modify-Tidy,
}

module _ {R : Runtime} (E : Engine R) (before : List (List Str)) where
  collect_run-Tidy :
      (out_dir : FilePath) (result : SandboxResult) (w : World E)
      → IsCleaned R before w.calls
      → Tidy before (collect_run E out_dir result w)
  unfolding collect_run
  collect_run-Tidy out_dir result w h =
      Tidy-then before (load_json R (at out_dir (codes "run.json")) w.files, w) _ h
        λ raw w₁ h₁.
          Tidy-then before (read_measurement R raw result.oom_killed, w₁) _ h₁
            λ m w₂ h₂.
              modify-then before (ensure_output E (at out_dir (codes "stdout"))) _ w₂ h₂
                λ u w₃ h₃. h₃

  collect_if-Tidy :
      (written : Bool) (out_dir : FilePath) (result : SandboxResult) (w : World E)
      → IsCleaned R before w.calls
      → Tidy before (collect_if E written out_dir result w)
  collect_if-Tidy true out_dir result w h = collect_run-Tidy out_dir result w h
  collect_if-Tidy false out_dir result w h = h

  prepare_run-Tidy :
      (case : TestCase) (run_dir out_dir : FilePath) (w : World E)
      → IsCleaned R before w.calls
      → Tidy before (prepare_run E case run_dir out_dir w)
  unfolding prepare_run
  prepare_run-Tidy case run_dir out_dir w h =
      modify-then before (fresh_dir run_dir) _ w h λ u w₁ h₁.
        modify-then before (fresh_dir out_dir) _ w₁ h₁ λ u w₂ h₂.
          modify-Tidy before (copy_file case.input_path (at run_dir (codes "tc.in"))) w₂ h₂

  pub run_one_testcase-Tidy :
      (case : TestCase) (run_argv : List Str) (work_dir io_dir : FilePath) (limits : TimeLimits R)
      (options : JudgeOptions R) (w : World E)
      → IsCleaned R before w.calls
      → Tidy before (run_one_testcase E case run_argv work_dir io_dir limits options w)
  unfolding run_one_testcase
  run_one_testcase-Tidy case run_argv work_dir io_dir limits options w h =
      let run_dir = at io_dir (codes "in") in
      let out_dir = at io_dir (codes "out") in
      Tidy-then before (prepare_run E case run_dir out_dir w) _
        (prepare_run-Tidy case run_dir out_dir w h)
        λ u w₁ h₁.
          run_sandbox-then before (run_one_spec E run_argv work_dir run_dir out_dir limits options)
            _ w₁ h₁ λ result w₂ h₂. collect_if-Tidy _ out_dir result w₂ h₂

  collect_pair_if-Tidy :
      (written : Bool) (out_dir feedback_dir : FilePath) (result : SandboxResult) (w : World E)
      → IsCleaned R before w.calls
      → Tidy before (collect_pair_if E written out_dir feedback_dir result w)
  unfolding collect_pair
  collect_pair_if-Tidy false out_dir feedback_dir result w h = h
  collect_pair_if-Tidy true out_dir feedback_dir result w h =
      Tidy-then before (load_json R (at out_dir (codes "run.json")) w.files, w) _ h
        λ raw w₁ h₁. Tidy-then before (read_pair_run R raw, w₁) _ h₁ λ pair w₂ h₂. h₂

  pub run_interactive_testcase-Tidy :
      (case : TestCase) (run_argv : List Str) (validator : BuiltValidator)
      (work_dir io_dir : FilePath) (config : ProblemConfig R) (limits : TimeLimits R)
      (options : JudgeOptions R) (w : World E)
      → IsCleaned R before w.calls
      → Tidy before (
          run_interactive_testcase E case run_argv validator work_dir io_dir config limits options
            w)
  unfolding run_interactive_testcase
  run_interactive_testcase-Tidy case run_argv validator work_dir io_dir config limits options w h =
      let data_dir = at io_dir (codes "idata") in
      let out_dir = at io_dir (codes "out") in
      let feedback_dir = at io_dir (codes "feedback") in
      modify-then before (fresh_dir data_dir) _ w h λ u w₁ h₁.
        modify-then before (fresh_dir out_dir) _ w₁ h₁ λ u w₂ h₂.
          modify-then before (fresh_dir feedback_dir) _ w₂ h₂ λ u w₃ h₃.
            modify-then before (copy_file case.input_path (at data_dir (codes "tc.in"))) _ w₃ h₃
              λ u w₄ h₄.
                modify-then before (copy_file case.answer_path (at data_dir (codes "tc.ans"))) _ w₄
                  h₄
                  λ u w₅ h₅.
                    run_sandbox-then before
                      (interactive_spec E run_argv validator work_dir data_dir out_dir feedback_dir
                        config.validator_flags limits options)
                      _ w₅ h₅
                      λ result w₆ h₆. collect_pair_if-Tidy _ out_dir feedback_dir result w₆ h₆
