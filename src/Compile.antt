-- ===== src/Compile.antt =====
-- src/icpc_verify/compile.py.
pub mod Outcome
use problem_verifier.Prelude.{
  ℕ, Bool, true, false, not, List, [], ◌∷◌, ◌++◌, map, Option, none, some, Str, codes, pos,
  if◌then◌else◌, ◌==◌, nat_eq, int_eq, list_eq, filter, split_on, str_of_nat,
}
use problem_verifier.Prelude.Result.{Result, ok, assertion_error, value_error}
use problem_verifier.Files.{
  Files, FilePath, is_dir, copytree, copy_file, file_name, parent, relative_to,
}
use problem_verifier.Languages.{Language, language_eq, value}
use problem_verifier.Solutions.{Solution, posix}
use problem_verifier.Runtime.{Runtime}
use problem_verifier.World.{Engine, M, ask, modify}
use problem_verifier.Steps.{◌>>=◌, ◌>>◌, pure, raise}
use problem_verifier.Sandbox.{SandboxSpec, SandboxResult, run_sandbox}

abbrev pub work_mount : Str
work_mount = codes "/work"

abbrev pub compile_memory_mib : ℕ
compile_memory_mib = 4096

pub record CompileOptions (R : Runtime) : Type 0 where
  pub image : Str
  pub cpuset : ℕ
  pub flags : List (Language × Str)
  pub timeout : R.Float

pub record CompileOutcome : Type 0 where
  pub ok : Bool
  pub log : Str
  pub work_dir : FilePath
  pub run_argv : List Str

-- `flags.get(language, "")`
unfoldable pub flags_for : Language → List (Language × Str) → Str
flags_for language [] = []
flags_for language ((l, flags) ∷ more) =
    let rest = flags_for language more in if l == language then flags else rest

abbrev source_root : Bool → FilePath → FilePath
source_root true path = path
source_root false path = parent path

unfoldable pub source_args : FilePath → Str → List FilePath → List Str
source_args root mount sources =
    map (λ source. mount ++ (codes "/" ++ posix (relative_to root source))) sources

-- The copy of `_stage_sources`: a directory as a whole, a file alone.
unfoldable pub stage_files : Solution → FilePath → Files → Result Files
stage_files solution work_dir files =
    if is_dir solution.path files
    then ok (copytree solution.path work_dir files)
    else copy_file solution.path (work_dir ++ (file_name solution.path ∷ [])) files

-- Behind the first container: no result, or the parts of its log.
unfoldable pub timeout_note : Str
timeout_note = codes "\ncompile timeout"

unfoldable pub compile_failed : Str
compile_failed = codes "컴파일에 실패했습니다"

unfoldable pub no_command_error : Str → Str
no_command_error detail = codes "실행 명령을 만들지 못했습니다: " ++ detail

abbrev pub failed : Str → FilePath → CompileOutcome
failed log work_dir = record { ok = false; log = log; work_dir = work_dir; run_argv = [] }

-- `log or fallback`
unfoldable pub text_or : Str → Str → Str
text_or [] fallback = fallback
text_or (c ∷ log) fallback = c ∷ log

unfoldable pub non_empty_lines : Str → List Str
non_empty_lines text = filter (λ part. not (part == [])) (split_on 10 text)

module _ {R : Runtime} (E : Engine R) where
  unfoldable pub stage_sources : Solution → FilePath → Str → M E (List Str)
  stage_sources solution work_dir mount = do
    is_directory ← ask (is_dir solution.path)
    modify (stage_files solution work_dir)
    pure (source_args (source_root is_directory solution.path) mount solution.sources)

  unfoldable pub compile_spec :
      Solution → Language → FilePath → CompileOptions R → Str → List Str → SandboxSpec R
  compile_spec solution language work_dir options mount sources = record {
    image = options.image;
    cpuset = options.cpuset;
    memory_mib = compile_memory_mib;
    binds = record { host = work_dir; target = mount; mode = codes "rw" } ∷ [];
    argv =
        codes "/usr/local/lib/icpc/compile.sh"
        ∷ value language
        ∷ mount
        ∷ solution.entry
        ∷ flags_for language options.flags
        ∷ codes "--"
        ∷ sources;
    timeout = options.timeout;
    user = some E.user;
    workdir = none;
  }

  unfoldable pub run_spec :
      Solution → Language → FilePath → ℕ → CompileOptions R → Str → SandboxSpec R
  run_spec solution language work_dir memory_mib options mount = record {
    image = options.image;
    cpuset = options.cpuset;
    memory_mib = compile_memory_mib;
    binds = record { host = work_dir; target = mount; mode = codes "rw" } ∷ [];
    argv =
        codes "/usr/local/lib/icpc/run.sh"
        ∷ value language
        ∷ mount
        ∷ solution.entry
        ∷ str_of_nat memory_mib
        ∷ [];
    timeout = R.of_nat 30;
    user = some E.user;
    workdir = none;
  }

  abbrev pub command_outcome : Option Str → Str → FilePath → M E CompileOutcome
  command_outcome none log work_dir = raise value_error
  command_outcome (some text) log work_dir =
      pure (record { ok = true; log = log; work_dir = work_dir; run_argv = non_empty_lines text })

  abbrev pub finish : SandboxResult → Str → FilePath → M E CompileOutcome
  finish run_result log work_dir =
      if not (run_result.exit_code == pos 0)
      then pure (failed (no_command_error (R.decode_replace run_result.stderr)) work_dir)
      else command_outcome (R.decode_strict run_result.stdout) log work_dir

  -- From the compiler's result on; `next` asks for the command.
  abbrev pub after_compile : SandboxResult → FilePath → M E SandboxResult → M E CompileOutcome
  after_compile compiled work_dir next =
      let log = R.decode_replace (compiled.stdout ++ compiled.stderr) in
      if compiled.timed_out
      then pure (failed (log ++ timeout_note) work_dir)
      else if not (compiled.exit_code == pos 0)
      then pure (failed (text_or log compile_failed) work_dir)
      else (next >>= λ run_result. finish run_result log work_dir)

  unfoldable pub compile_language :
      Solution → FilePath → ℕ → CompileOptions R → Str → Option Language → M E CompileOutcome
  compile_language solution work_dir memory_mib options mount none = raise assertion_error
  compile_language solution work_dir memory_mib options mount (some language) = do
    sources ← stage_sources solution work_dir mount
    compiled ← run_sandbox E (compile_spec solution language work_dir options mount sources)
    after_compile compiled work_dir
        (run_sandbox E (run_spec solution language work_dir memory_mib options mount))

  abbrev pub compile_checked :
      Option Str → Solution → FilePath → ℕ → CompileOptions R → Str → M E CompileOutcome
  compile_checked none solution work_dir memory_mib options mount =
      compile_language solution work_dir memory_mib options mount solution.language
  compile_checked (some []) solution work_dir memory_mib options mount =
      compile_language solution work_dir memory_mib options mount solution.language
  compile_checked (some (c ∷ error)) solution work_dir memory_mib options mount =
      pure (failed (c ∷ error) work_dir)

  unfoldable pub compile_solution :
      Solution → FilePath → ℕ → CompileOptions R → Str → M E CompileOutcome
  compile_solution solution work_dir memory_mib options mount =
      compile_checked solution.error solution work_dir memory_mib options mount
