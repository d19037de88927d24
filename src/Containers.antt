-- ===== src/Containers.antt =====
-- The containers that the program leaves behind: what every step of it does to the calls of docker.
pub mod Compiled
pub mod Runs
pub mod Judged
pub mod Program
use problem_verifier.Prelude.{Bool, true, false, if◌then◌else◌, List, ◌∷◌, Str, ◌≡◌, subst, sym}
use problem_verifier.Prelude.Result.{Result, ok, err}
use problem_verifier.Files.{Files}
use problem_verifier.Runtime.{Runtime}
use problem_verifier.World.{Engine, World, M, change_files, modify}
use problem_verifier.Steps.{bind_ended}
use problem_verifier.Sandbox.{SandboxSpec, SandboxResult, build_run_argv, remove_args, run_sandbox}
use problem_verifier.Sandbox.Cleanup.{OnlyAbout, run_sandbox_removes}

-- The calls since `before` are those of one container after the other: each is started with the
-- settings that isolate it, is at most killed and inspected, and is removed before the next one starts.
pub data IsCleaned (R : Runtime) (before : List (List Str)) : List (List Str) → Type 0 where
  nothing : IsCleaned R before before
  container :
      {calls between : List (List Str)} (spec : SandboxSpec R) (name : Str)
      → IsCleaned R before calls
      → OnlyAbout name (build_run_argv R spec name ∷ calls) between
      → IsCleaned R before (remove_args name ∷ between)

module _ {R : Runtime} {E : Engine R} (before : List (List Str)) where
  -- No container is left when a step ends, with a value or with an exception.
  abbrev pub Tidy : {A : Type 0} → Result A × World E → Type 0
  Tidy step = IsCleaned R before step.1.calls

  pub Tidy-then :
      {A B : Type 0} (step : Result A × World E) (f : A → M E B)
      → Tidy step
      → ((a : A) (w : World E) → IsCleaned R before w.calls → Tidy (f a w))
      → Tidy (bind_ended step f)
  Tidy-then (ok a, w) f h k = k a w h
  Tidy-then (err e, w) f h k = h

  change_files-Tidy :
      (changed : Result Files) (w : World E)
      → IsCleaned R before w.calls
      → Tidy (change_files changed w)
  change_files-Tidy (ok files) w h = h
  change_files-Tidy (err e) w h = h

  pub modify-Tidy :
      (f : Files → Result Files) (w : World E) → IsCleaned R before w.calls → Tidy (modify f w)
  modify-Tidy f w h = change_files-Tidy (f w.files) w h

  pub run_sandbox-Tidy :
      (spec : SandboxSpec R) (w : World E)
      → IsCleaned R before w.calls
      → Tidy (run_sandbox E spec w)
  run_sandbox-Tidy spec w h =
      let (name, between, calls, about) = run_sandbox_removes E spec w in
      subst (IsCleaned R before) (sym calls) (container spec name h about)

  pub Tidy-if :
      {A : Type 0} (test : Bool) (f g : M E A) (w : World E)
      → Tidy (f w)
      → Tidy (g w)
      → Tidy ((if test then f else g) w)
  Tidy-if true f g w h k = h
  Tidy-if false f g w h k = k

  -- The same where the first step is one of the two above.
  pub modify-then :
      {B : Type 0} (f : Files → Result Files) (rest : Unit {0} → M E B) (w : World E)
      → IsCleaned R before w.calls
      → ((u : Unit {0}) (w' : World E) → IsCleaned R before w'.calls → Tidy (rest u w'))
      → Tidy (bind_ended (modify f w) rest)
  modify-then f rest w h k = Tidy-then (modify f w) rest (modify-Tidy f w h) k

  pub run_sandbox-then :
      {B : Type 0} (spec : SandboxSpec R) (rest : SandboxResult → M E B) (w : World E)
      → IsCleaned R before w.calls
      → ((result : SandboxResult) (w' : World E)
          → IsCleaned R before w'.calls
          → Tidy (rest result w'))
      → Tidy (bind_ended (run_sandbox E spec w) rest)
  run_sandbox-then spec rest w h k =
      Tidy-then (run_sandbox E spec w) rest (run_sandbox-Tidy spec w h) k
