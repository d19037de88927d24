-- ===== src/Judge.antt =====
-- src/icpc_verify/judge.py: the options, and the modules for its parts.
pub mod Run
pub mod RunPair
pub mod Factor
pub mod Cases
pub mod Solve
pub mod Returned
pub mod Loop
pub mod Solved
pub mod Fresh
pub mod Unmeasured
use problem_verifier.Prelude.{ℕ, Bool, Str, codes, List}
use problem_verifier.Runtime.{Runtime}
use problem_verifier.Languages.{Language}

abbrev pub stderr_keep_bytes : ℕ
stderr_keep_bytes = 8192

pub record JudgeOptions (R : Runtime) : Type 0 where
  pub image : Str
  pub cpuset : ℕ
  pub judge_all : Bool
  pub output_limit_mib : ℕ
  pub memory_mib : ℕ
  pub compile_flags : List (Language × Str)
  pub machine_factor : R.Float
  pub cpu_isolated : Bool
  pub warnings : List Str
