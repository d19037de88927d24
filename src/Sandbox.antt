-- ===== src/Sandbox.antt =====
-- src/icpc_verify/sandbox.py.
pub mod Cleanup
pub mod Silent
use problem_verifier.Prelude.{
  ℕ, Bool, true, false, not, ◌||◌, ◌&&◌, List, [], ◌∷◌, ◌++◌, Option, none, some, Str, Bytes, codes,
  ℤ, pos, negsuc, if◌then◌else◌, ◌==◌, nat_eq, int_eq, list_eq, str_of_nat, leb, lstrip,
}
use problem_verifier.Prelude.Result.{Result, ok, err, Exc, sandbox_error, timeout_expired}
use problem_verifier.Json.{
  Json, null, bool, int, float, text, array, object, Items, nil, cons, Members, end, member,
  find_member,
}
use problem_verifier.Runtime.{Runtime}
use problem_verifier.Files.{Files, FilePath, path_text}
use problem_verifier.World.{Ended, completed, expired, missing, Engine, World, M}
use problem_verifier.Steps.{◌>>=◌, ◌>>◌, pure, raise, finally}

pub record Bind : Type 0 where
  pub host : FilePath
  pub target : Str
  pub mode : Str

pub record SandboxSpec (R : Runtime) : Type 0 where
  pub image : Str
  pub cpuset : ℕ
  pub memory_mib : ℕ
  pub binds : List Bind
  pub argv : List Str
  pub timeout : R.Float
  pub user : Option Str
  pub workdir : Option Str

pub record SandboxResult : Type 0 where
  pub exit_code : ℤ
  pub oom_killed : Bool
  pub stdout : Bytes
  pub stderr : Bytes
  pub timed_out : Bool

-- `not raw.strip()`
abbrev is_blank_byte : ℕ → Bool
is_blank_byte c = (leb 9 c && leb c 13) || c == 32

module _ (R : Runtime) where
  -- `bool(value)`
  unfoldable pub truth : Json R.Float → Bool
  truth null = false
  truth (bool b) = b
  truth (int n) = not (n == pos 0)
  truth (float x) = R.is_true x
  truth (text []) = false
  truth (text (c ∷ s)) = true
  truth (array nil) = false
  truth (array (cons x items)) = true
  truth (object end) = false
  truth (object (member k v more)) = true

  abbrev truth_or_false : Option (Json R.Float) → Bool
  truth_or_false none = false
  truth_or_false (some value) = truth value

  abbrev oom_of_state : Option (Json R.Float) → Bool
  oom_of_state (some (object members)) = truth_or_false (find_member (codes "OOMKilled") members)
  oom_of_state _ = false

  unfoldable pub parse_oom_killed : Bytes → Bool
  parse_oom_killed raw =
      if lstrip is_blank_byte raw == [] then false else oom_of_state (R.json_of raw)

  abbrev pub user_args : Option Str → List Str
  user_args none = []
  user_args (some user) = if user == [] then [] else codes "--user" ∷ user ∷ []

  abbrev pub workdir_args : Option Str → List Str
  workdir_args none = []
  workdir_args (some workdir) = if workdir == [] then [] else codes "-w" ∷ workdir ∷ []

  unfoldable pub bind_text : Bind → Str
  bind_text b = path_text b.host ++ (codes ":" ++ (b.target ++ (codes ":" ++ b.mode)))

  abbrev pub bind_args : List Bind → List Str
  bind_args [] = []
  bind_args (b ∷ binds) = codes "-v" ∷ bind_text b ∷ bind_args binds

  unfoldable pub memory_text : ℕ → Str
  memory_text mib = str_of_nat mib ++ codes "m"

  -- The settings that isolate every container.
  unfoldable pub isolation_args : SandboxSpec R → Str → List Str
  isolation_args spec name =
      codes "--name"
      ∷ name
      ∷ codes "--cpuset-cpus"
      ∷ str_of_nat spec.cpuset
      ∷ codes "--cpuset-mems"
      ∷ codes "0"
      ∷ codes "--memory"
      ∷ memory_text spec.memory_mib
      ∷ codes "--memory-swap"
      ∷ memory_text spec.memory_mib
      ∷ codes "--pids-limit"
      ∷ codes "256"
      ∷ codes "--network"
      ∷ codes "none"
      ∷ codes "--cap-drop"
      ∷ codes "ALL"
      ∷ codes "--security-opt"
      ∷ codes "no-new-privileges"
      ∷ codes "--read-only"
      ∷ codes "--tmpfs"
      ∷ codes "/tmp:rw,size=64m"
      ∷ []

  unfoldable pub build_run_argv : SandboxSpec R → Str → List Str
  build_run_argv spec name =
      codes "run"
      ∷ (isolation_args spec name
          ++ (user_args spec.user
              ++ (workdir_args spec.workdir ++ (bind_args spec.binds ++ (spec.image ∷ spec.argv)))))

  unfoldable pub no_docker_error : Exc
  no_docker_error = sandbox_error (codes "docker 명령을 찾지 못했습니다")

unfoldable pub kill_args : Str → List Str
kill_args name = codes "kill" ∷ name ∷ []

unfoldable pub inspect_args : Str → List Str
inspect_args name = codes "inspect" ∷ codes "--format" ∷ codes "{{json .State}}" ∷ name ∷ []

unfoldable pub remove_args : Str → List Str
remove_args name = codes "rm" ∷ codes "-f" ∷ name ∷ []

module _ {R : Runtime} (E : Engine R) where
  -- `uuid.uuid4()`: a name that the engine chooses.
  unfoldable pub container_name : M E Str
  container_name w =
      let (hex, s) = E.fresh w.engine in (ok (codes "icpc-" ++ hex), record w { engine = s })

  -- `subprocess.run(["docker", *args])`, recorded; a missing command is a `SandboxError`.
  abbrev pub after_call : List Str → World E → Ended × E.State × Files → Result Ended × World E
  after_call args w (missing, s, files) =
      (err (no_docker_error R), record w { files = files; engine = s; calls = args ∷ w.calls })
  after_call args w (completed code out err', s, files) =
      (ok (completed code out err'), record w { files = files; engine = s; calls = args ∷ w.calls })
  after_call args w (expired out err', s, files) =
      (ok (expired out err'), record w { files = files; engine = s; calls = args ∷ w.calls })

  unfoldable pub docker : List Str → R.Float → M E Ended
  docker args timeout w = after_call args w (E.call args timeout w.engine w.files)

  -- A call whose `TimeoutExpired` nobody catches.
  abbrev pub must_complete : Ended → M E (ℤ × Bytes)
  must_complete (completed code out _) = pure (code, out)
  must_complete (expired _ _) = raise timeout_expired
  must_complete missing = raise (no_docker_error R)

  unfoldable pub docker_done : List Str → M E (ℤ × Bytes)
  docker_done args = docker args (R.of_nat 30) >>= must_complete

  -- The inner `try`: how the container ended, after a `docker kill` if its time was up.
  abbrev pub after_run : Str → Ended → M E (ℤ × Bytes × Bytes × Bool)
  after_run name (completed code out err') = pure (code, out, err', false)
  after_run name (expired out err') =
      docker_done (kill_args name) >>= λ _. pure (negsuc 0, out, err', true)
  after_run name missing = raise (no_docker_error R)

  abbrev oom_of_inspect : ℤ × Bytes → Bool
  oom_of_inspect (code, out) = if code == pos 0 then parse_oom_killed R out else false

  -- What stands in the outer `try`.
  unfoldable pub run_and_inspect : SandboxSpec R → Str → M E SandboxResult
  run_and_inspect spec name = do
    ended ← docker (build_run_argv R spec name) spec.timeout
    (code, out, err', timed_out) ← after_run name ended
    inspected ← docker_done (inspect_args name)
    pure (record {
      exit_code = code;
      oom_killed = oom_of_inspect inspected;
      stdout = out;
      stderr = err';
      timed_out = timed_out;
    })

  unfoldable pub remove_container : Str → M E (Unit {0})
  remove_container name = docker_done (remove_args name) >>= λ _. pure tt

  unfoldable pub run_sandbox : SandboxSpec R → M E SandboxResult
  run_sandbox spec = do
    name ← container_name
    finally (run_and_inspect spec name) (remove_container name)
