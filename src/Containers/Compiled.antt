-- ===== src/Containers/Compiled.antt =====
-- No container is left by the compilation and by the validators.
use problem_verifier.Prelude.{
  ℕ, not, List, [], ◌∷◌, ◌++◌, Option, none, some, Str, codes, ◌==◌, int_eq, pos,
}
use problem_verifier.Files.{FilePath, fresh_dir, copy_file, parent}
use problem_verifier.Languages.{Language}
use problem_verifier.Solutions.{Solution}
use problem_verifier.Runtime.{Runtime}
use problem_verifier.World.{Engine, World, M}
use problem_verifier.Sandbox.{SandboxResult, run_sandbox}
use problem_verifier.Compile.{
  CompileOptions, stage_sources, stage_files, compile_spec, run_spec, command_outcome, finish,
  after_compile, compile_language, compile_checked, compile_solution,
}
use problem_verifier.Validators.{
  BuildPlan, build_script, run_script, sources, BuiltValidator, build_spec, build_planned,
  build_validator, plan_validator_build, fresh_copy, prepare_validator, validator_spec,
  run_custom_validator, validator_memory_mib, validator_mount,
}
use problem_verifier.Containers.{
  IsCleaned, Tidy, Tidy-then, Tidy-if, modify-Tidy, run_sandbox-Tidy, modify-then, run_sandbox-then,
}

module _ {R : Runtime} (E : Engine R) (before : List (List Str)) where
  stage_sources-Tidy :
      (solution : Solution) (work_dir : FilePath) (mount : Str) (w : World E)
      → IsCleaned R before w.calls
      → Tidy before (stage_sources E solution work_dir mount w)
  unfolding stage_sources
  stage_sources-Tidy solution work_dir mount w h =
      modify-then before (stage_files solution work_dir) _ w h (λ u w' h'. h')

  command_outcome-Tidy :
      (text : Option Str) (log : Str) (work_dir : FilePath) (w : World E)
      → IsCleaned R before w.calls
      → Tidy before (command_outcome E text log work_dir w)
  command_outcome-Tidy none log work_dir w h = h
  command_outcome-Tidy (some text) log work_dir w h = h

  finish-Tidy :
      (run_result : SandboxResult) (log : Str) (work_dir : FilePath) (w : World E)
      → IsCleaned R before w.calls
      → Tidy before (finish E run_result log work_dir w)
  finish-Tidy run_result log work_dir w h =
      Tidy-if before (not (run_result.exit_code == pos 0)) _ _ w h
        (command_outcome-Tidy (R.decode_strict run_result.stdout) log work_dir w h)

  after_compile-Tidy :
      (compiled : SandboxResult) (work_dir : FilePath) (next : M E SandboxResult) (w : World E)
      → IsCleaned R before w.calls
      → Tidy before (next w)
      → Tidy before (after_compile E compiled work_dir next w)
  after_compile-Tidy compiled work_dir next w h k = Tidy-if before compiled.timed_out _ _ w h (
      Tidy-if before (not (compiled.exit_code == pos 0)) _ _ w h (
        Tidy-then before (next w) _ k (λ run_result w' h'.
          finish-Tidy run_result (R.decode_replace (compiled.stdout ++ compiled.stderr)) work_dir w'
            h')))

  compile_language-Tidy :
      (solution : Solution) (work_dir : FilePath) (memory_mib : ℕ) (options : CompileOptions R)
      (mount : Str) (language : Option Language) (w : World E)
      → IsCleaned R before w.calls
      → Tidy before (compile_language E solution work_dir memory_mib options mount language w)
  unfolding compile_language
  compile_language-Tidy solution work_dir memory_mib options mount none w h = h
  compile_language-Tidy solution work_dir memory_mib options mount (some language) w h =
      Tidy-then before (stage_sources E solution work_dir mount w) _
        (stage_sources-Tidy solution work_dir mount w h)
        (λ sources w₁ h₁.
          run_sandbox-then before (compile_spec E solution language work_dir options mount sources)
            _ w₁ h₁
            (λ compiled w₂ h₂.
              after_compile-Tidy compiled work_dir
                (run_sandbox E (run_spec E solution language work_dir memory_mib options mount)) w₂
                h₂ (run_sandbox-Tidy before _ w₂ h₂)))

  compile_checked-Tidy :
      (error : Option Str) (solution : Solution) (work_dir : FilePath) (memory_mib : ℕ)
      (options : CompileOptions R) (mount : Str) (w : World E)
      → IsCleaned R before w.calls
      → Tidy before (compile_checked E error solution work_dir memory_mib options mount w)
  compile_checked-Tidy none solution work_dir memory_mib options mount w h =
      compile_language-Tidy solution work_dir memory_mib options mount solution.language w h
  compile_checked-Tidy (some []) solution work_dir memory_mib options mount w h =
      compile_language-Tidy solution work_dir memory_mib options mount solution.language w h
  compile_checked-Tidy (some (c ∷ error)) solution work_dir memory_mib options mount w h = h

  pub compile_solution-Tidy :
      (solution : Solution) (work_dir : FilePath) (memory_mib : ℕ) (options : CompileOptions R)
      (mount : Str) (w : World E)
      → IsCleaned R before w.calls
      → Tidy before (compile_solution E solution work_dir memory_mib options mount w)
  unfolding compile_solution
  compile_solution-Tidy solution work_dir memory_mib options mount w h =
      compile_checked-Tidy solution.error solution work_dir memory_mib options mount w h

  build_planned-Tidy :
      (plan : BuildPlan) (build_dir : FilePath) (image : Str) (cpuset : ℕ) (w : World E)
      → IsCleaned R before w.calls
      → Tidy before (build_planned E plan build_dir image cpuset w)
  unfolding build_planned
  build_planned-Tidy run_script build_dir image cpuset w h = h
  build_planned-Tidy build_script build_dir image cpuset w h =
      run_sandbox-then before (build_spec E build_dir image cpuset) _ w h (λ result w' h'. h')
  build_planned-Tidy (sources solution) build_dir image cpuset w h =
      Tidy-then before
        (compile_solution E solution build_dir validator_memory_mib _ validator_mount w) _
        (compile_solution-Tidy solution build_dir validator_memory_mib _ validator_mount w h)
        (λ outcome w' h'. h')

  pub build_validator-Tidy :
      (validator_dir build_root : FilePath) (image : Str) (cpuset : ℕ) (w : World E)
      → IsCleaned R before w.calls
      → Tidy before (build_validator E validator_dir build_root image cpuset w)
  unfolding build_validator
  build_validator-Tidy validator_dir build_root image cpuset w h =
      let build_dir = build_root ++ (codes "validator" ∷ []) in
      Tidy-then before (plan_validator_build R validator_dir w.files, w) _ h
        (λ plan w₁ h₁.
          modify-then before (fresh_copy validator_dir build_dir) _ w₁ h₁
            (λ u w₂ h₂. build_planned-Tidy plan build_dir image cpuset w₂ h₂))

  prepare_validator-Tidy :
      (input_path answer_path team_output_path data_dir feedback_dir : FilePath) (w : World E)
      → IsCleaned R before w.calls
      → Tidy before
          (prepare_validator E input_path answer_path team_output_path data_dir feedback_dir w)
  unfolding prepare_validator
  prepare_validator-Tidy input_path answer_path team_output_path data_dir feedback_dir w h =
      modify-then before (fresh_dir data_dir) _ w h λ u w₁ h₁.
        modify-then before (copy_file input_path (data_dir ++ (codes "tc.in" ∷ []))) _ w₁ h₁
          λ u w₂ h₂.
            modify-then before (copy_file answer_path (data_dir ++ (codes "tc.ans" ∷ []))) _ w₂ h₂
              λ u w₃ h₃.
                modify-then before (copy_file team_output_path (data_dir ++ (codes "tc.out" ∷ [])))
                  _ w₃ h₃ λ u w₄ h₄. modify-Tidy before (fresh_dir feedback_dir) w₄ h₄

  pub run_custom_validator-Tidy :
      (built : BuiltValidator) (input_path answer_path team_output_path feedback_dir : FilePath)
      (flags : List Str) (image : Str) (cpuset : ℕ) (timeout : R.Float) (w : World E)
      → IsCleaned R before w.calls
      → Tidy before (
          run_custom_validator E built input_path answer_path team_output_path feedback_dir flags
            image cpuset timeout w)
  unfolding run_custom_validator
  run_custom_validator-Tidy built input_path answer_path team_output_path feedback_dir flags image
        cpuset timeout w h =
      let data_dir = parent feedback_dir ++ (codes "vdata" ∷ []) in
      Tidy-then before
        (prepare_validator E input_path answer_path team_output_path data_dir feedback_dir w) _
        (prepare_validator-Tidy input_path answer_path team_output_path data_dir feedback_dir w h)
        (λ u w₁ h₁.
          run_sandbox-then before
            (validator_spec E built data_dir feedback_dir flags image cpuset timeout) _ w₁ h₁
            (λ result w₂ h₂. h₂))
