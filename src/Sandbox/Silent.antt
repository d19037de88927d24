-- ===== src/Sandbox/Silent.antt =====
-- What `run_sandbox` does to a file that no container makes.
use problem_verifier.Prelude.{List, Str, codes, ◌++◌}
use problem_verifier.Prelude.Result.{Result, ok, err, Exc}
use problem_verifier.Files.{Files, FilePath}
use problem_verifier.Files.Fresh.{HasNot}
use problem_verifier.Runtime.{Runtime}
use problem_verifier.World.{Ended, completed, expired, missing, Engine, World, M}
use problem_verifier.Steps.{bind_ended, Leaves, Ends-bind_ended, keep_outcome, clean_after}
use problem_verifier.Sandbox.{
  SandboxSpec, build_run_argv, after_call, docker, docker_done, must_complete, after_run, kill_args,
  inspect_args, remove_args, run_and_inspect, remove_container, container_name, run_sandbox,
}

-- No call of docker makes this file, where it is not there.
abbrev pub IsSilent : {R : Runtime} → Engine R → FilePath → Type 0
IsSilent {R} E q =
    (args : List Str) (timeout : R.Float) (s : E.State) (files : Files)
    → HasNot q files
    → HasNot q (E.call args timeout s files).2

module _ {R : Runtime} (E : Engine R) (q : FilePath) where
  abbrev pub LeavesNone : {A : Type 0} → Result A × World E → Type 0
  LeavesNone = Leaves (λ a w. HasNot q w.files)

  pub LeavesNone-then :
      {A B : Type 0} (Q : B → World E → Type 0) (step : Result A × World E) (f : A → M E B)
      → LeavesNone step
      → ((a : A) (w : World E) → HasNot q w.files → Leaves Q (f a w))
      → Leaves Q (bind_ended step f)
  LeavesNone-then Q step f h k = Ends-bind_ended (λ e. Unit) (λ a w. HasNot q w.files) Q step f h k

  after_call-LeavesNone :
      (args : List Str) (w : World E) (called : Ended × E.State × Files)
      → HasNot q called.2
      → LeavesNone (after_call E args w called)
  after_call-LeavesNone args w (missing, s, files) h = tt
  after_call-LeavesNone args w (completed code out err', s, files) h = h
  after_call-LeavesNone args w (expired out err', s, files) h = h

  keep_outcome-LeavesNone :
      {A : Type 0} (a : A) (cleaned : Result (Unit {0}) × World E)
      → LeavesNone cleaned
      → LeavesNone (keep_outcome (ok a) cleaned)
  keep_outcome-LeavesNone a (ok u, w) h = h
  keep_outcome-LeavesNone a (err e, w) h = tt

  keep_error-LeavesNone :
      (A : Type 0) (e : Exc) (cleaned : Result (Unit {0}) × World E)
      → LeavesNone {A = A} (keep_outcome (err e) cleaned)
  keep_error-LeavesNone A e (ok u, w) = tt
  keep_error-LeavesNone A e (err e', w) = tt

  clean_after-LeavesNone :
      {A : Type 0} (step : Result A × World E) (clean : M E (Unit {0}))
      → LeavesNone step
      → ((w : World E) → HasNot q w.files → LeavesNone (clean w))
      → LeavesNone (clean_after step clean)
  clean_after-LeavesNone (ok a, w) clean h k = keep_outcome-LeavesNone a (clean w) (k w h)
  clean_after-LeavesNone {A} (err e, w) clean h k = keep_error-LeavesNone A e (clean w)

  module _ (silent : IsSilent E q) where
    docker-LeavesNone :
        (args : List Str) (timeout : R.Float) (w : World E)
        → HasNot q w.files
        → LeavesNone (docker E args timeout w)
    unfolding docker
    docker-LeavesNone args timeout w h =
        after_call-LeavesNone args w (E.call args timeout w.engine w.files)
          (silent args timeout w.engine w.files h)

    must_complete-LeavesNone :
        (ended : Ended) (w : World E) → HasNot q w.files → LeavesNone (must_complete E ended w)
    must_complete-LeavesNone (completed code out err') w h = h
    must_complete-LeavesNone (expired out err') w h = tt
    must_complete-LeavesNone missing w h = tt

    docker_done-LeavesNone :
        (args : List Str) (w : World E) → HasNot q w.files → LeavesNone (docker_done E args w)
    unfolding docker_done
    docker_done-LeavesNone args w h =
        LeavesNone-then (λ a w'. HasNot q w'.files) (docker E args (R.of_nat 30) w)
          (must_complete E) (docker-LeavesNone args (R.of_nat 30) w h) must_complete-LeavesNone

    after_run-LeavesNone :
        (name : Str) (ended : Ended) (w : World E)
        → HasNot q w.files
        → LeavesNone (after_run E name ended w)
    after_run-LeavesNone name (completed code out err') w h = h
    after_run-LeavesNone name missing w h = tt
    after_run-LeavesNone name (expired out err') w h =
        LeavesNone-then (λ a w'. HasNot q w'.files) (docker_done E (kill_args name) w) _
          (docker_done-LeavesNone (kill_args name) w h) (λ a w' h'. h')

    run_and_inspect-LeavesNone :
        (spec : SandboxSpec R) (name : Str) (w : World E)
        → HasNot q w.files
        → LeavesNone (run_and_inspect E spec name w)
    unfolding run_and_inspect
    run_and_inspect-LeavesNone spec name w h =
        LeavesNone-then (λ a w'. HasNot q w'.files)
          (docker E (build_run_argv R spec name) spec.timeout w) _
          (docker-LeavesNone (build_run_argv R spec name) spec.timeout w h)
          λ ended w₁ h₁.
            LeavesNone-then (λ a w'. HasNot q w'.files) (after_run E name ended w₁) _
              (after_run-LeavesNone name ended w₁ h₁)
              λ outcome w₂ h₂.
                LeavesNone-then (λ a w'. HasNot q w'.files) (docker_done E (inspect_args name) w₂) _
                  (docker_done-LeavesNone (inspect_args name) w₂ h₂) (λ a w₃ h₃. h₃)

    remove_container-LeavesNone :
        (name : Str) (w : World E) → HasNot q w.files → LeavesNone (remove_container E name w)
    unfolding remove_container
    remove_container-LeavesNone name w h =
        LeavesNone-then (λ a w'. HasNot q w'.files) (docker_done E (remove_args name) w) _
          (docker_done-LeavesNone (remove_args name) w h) (λ a w' h'. h')

    pub run_sandbox-LeavesNone :
        (spec : SandboxSpec R) (w : World E) → HasNot q w.files → LeavesNone (run_sandbox E spec w)
    unfolding run_sandbox container_name
    run_sandbox-LeavesNone spec w h =
        let (hex, s) = E.fresh w.engine in
        let name = codes "icpc-" ++ hex in
        let named : World E = record w { engine = s } in
        clean_after-LeavesNone (run_and_inspect E spec name named) (remove_container E name)
          (run_and_inspect-LeavesNone spec name named h) (remove_container-LeavesNone name)
