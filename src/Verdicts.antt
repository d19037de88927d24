-- ===== src/Verdicts.antt =====
-- src/icpc_verify/verdicts.py. The verdict constants are an enumeration; `name` has their texts.
use problem_verifier.Prelude.{◌≡◌, refl, List, [], ◌∷◌, map, Str, codes, Eq, arith}

pub data Verdict : Type 0 where
  accepted wrong_answer time_limit_exceeded run_time_error compiler_error judge_error not_run :
      Verdict

unfoldable pub Verdict-discrete : Discrete Verdict
Verdict-discrete = hlevel

instance unfoldable pub verdict_eq : Eq Verdict
unfolding Verdict-discrete
verdict_eq = record { dec = Verdict-discrete }

unfoldable pub name : Verdict → Str
name accepted = codes "accepted"
name wrong_answer = codes "wrong_answer"
name time_limit_exceeded = codes "time_limit_exceeded"
name run_time_error = codes "run_time_error"
name compiler_error = codes "compiler_error"
name judge_error = codes "judge_error"
name not_run = codes "not_run"

-- The names of the directories under solutions/.
unfoldable pub expected_verdicts : List Str
unfolding name
expected_verdicts = map name (accepted ∷ wrong_answer ∷ time_limit_exceeded ∷ run_time_error ∷ [])

unfoldable pub summary_icon : Verdict → Str
summary_icon accepted = codes "🟩"
summary_icon wrong_answer = codes "🟥"
summary_icon time_limit_exceeded = codes "🟨"
summary_icon run_time_error = codes "🟧"
summary_icon compiler_error = codes "🟪"
summary_icon judge_error = codes "🟪"
summary_icon not_run = codes "⬜"

pub name_injective : (a b : Verdict) → name a ≡ name b → a ≡ b
unfolding name
name_injective accepted accepted h = refl
name_injective a b h = ground arith
