-- ===== src/World.antt =====
-- What the judge acts on: the host's files, and the `docker` command with a state of its own.
use problem_verifier.Prelude.{List, Str, Bytes, ℤ}
use problem_verifier.Prelude.Result.{Result, ok, err}
use problem_verifier.Runtime.{Runtime}
use problem_verifier.Files.{Files}
use problem_verifier.Steps.{bind_ended, Ensures, Leaves, Ends-bind_ended}

-- How a call of `docker` ends: with an exit code, by the timeout of `subprocess.run`, or not at all
-- because there is no such command. What was captured of the two streams comes along.
pub data Ended : Type 0 where
  completed : ℤ → Bytes → Bytes → Ended
  expired : Bytes → Bytes → Ended
  missing : Ended

-- The docker engine is no part of the repository: a call may do anything to its own state and to the
-- host's files. `fresh` is `uuid.uuid4().hex[:12]`, and `host_user` the `uid:gid` of the process.
pub record Engine (R : Runtime) : Type 1 where
  pub State : Type 0
  pub call : List Str → R.Float → State → Files → Ended × State × Files
  pub fresh : State → Str × State
  pub user : Str

module _ {R : Runtime} (E : Engine R) where
  -- The calls of `docker` are recorded, the last one first.
  pub record World : Type 0 where
    pub files : Files
    pub engine : E.State
    pub calls : List (List Str)

-- A step that may raise an exception; what it did to the world stays done.
abbrev pub M : {R : Runtime} → Engine R → Type 0 → Type 0
M E A = World E → Result A × World E

module _ {R : Runtime} {E : Engine R} where
  -- A question about the files, and a change of them that may fail.
  abbrev pub ask : {A : Type 0} → (Files → A) → M E A
  ask f w = (ok (f w.files), w)

  abbrev pub change_files : Result Files → World E → Result (Unit {0}) × World E
  change_files (ok files) w = (ok tt, record w { files = files })
  change_files (err e) w = (err e, w)

  abbrev pub modify : (Files → Result Files) → M E (Unit {0})
  modify f w = change_files (f w.files) w

  change_files-Leaves :
      (P : Files → Type 0) (changed : Result Files) (w : World E)
      → Ensures P changed
      → Leaves (λ u w'. P w'.files) (change_files changed w)
  change_files-Leaves P (ok files) w h = h
  change_files-Leaves P (err e) w h = tt

  -- What a change ensures of the files holds in the world that it leaves.
  pub modify-Leaves :
      (P : Files → Type 0) (f : Files → Result Files) (w : World E)
      → Ensures P (f w.files)
      → Leaves (λ u w'. P w'.files) (modify f w)
  modify-Leaves P f w h = change_files-Leaves P (f w.files) w h

  pub modify-Leaves-then :
      {B : Type 0} (P : Files → Type 0) (Q : B → World E → Type 0) (f : Files → Result Files)
      (rest : Unit {0} → M E B) (w : World E)
      → Ensures P (f w.files)
      → ((u : Unit {0}) (w' : World E) → P w'.files → Leaves Q (rest u w'))
      → Leaves Q (bind_ended (modify f w) rest)
  modify-Leaves-then P Q f rest w h k =
      Ends-bind_ended (λ e. Unit) (λ u w'. P w'.files) Q (modify f w) rest (modify-Leaves P f w h) k
