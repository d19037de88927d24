-- ===== src/Compile/Outcome.antt =====
-- What `compile_solution` gives back on each of its ways out.
use problem_verifier.Prelude.{true, false, [], ◌≡◌, ◌≢◌, ◌⊎◌, All, nat_eq, int_eq}
use problem_verifier.Prelude.Result.{Result, ok}
use problem_verifier.Files.{FilePath}
use problem_verifier.Runtime.{Runtime}
use problem_verifier.World.{Engine, World, M}
use problem_verifier.Steps.{Returns}
use problem_verifier.Compile.{CompileOutcome}

-- A solution that was compiled has a command with no empty word; any other has no command and a log
-- that is not empty.
abbrev pub IsExplained : FilePath → CompileOutcome → Type 0
IsExplained work_dir outcome =
    (outcome.work_dir ≡ work_dir)
    × (((outcome.ok ≡ true) × All (λ word. word ≢ []) outcome.run_argv)
        ⊎ ((outcome.ok ≡ false) × (outcome.run_argv ≡ []) × (outcome.log ≢ [])))

module _ {R : Runtime} (E : Engine R) (work_dir : FilePath) where
  abbrev Explains : M E CompileOutcome → Type 0
  Explains step = Returns step (IsExplained work_dir)
