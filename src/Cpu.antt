-- ===== src/Cpu.antt =====
-- src/icpc_verify/cpu.py. A topology is the dict's entries in order, CPU by CPU with its siblings.
pub mod Lists
pub mod Read
pub mod Plan
pub mod Host
use problem_verifier.Prelude.{
  ℕ, zero, suc, ◌+◌, ◌-◌, Bool, true, false, not, ◌&&◌, List, [], ◌∷◌, ◌++◌, map, Option, none,
  some, Str, codes, if◌then◌else◌, ◌==◌, nat_eq, list_eq, contains, filter, leb, strip, split_on,
  cut_at, join, str_of_nat,
}
use problem_verifier.Prelude.Result.{Result, ok, err, ◌>>=◌, cpu_error, value_error, index_error}
use problem_verifier.Sorting.{sort_by, unique, lex_le}
use problem_verifier.Runtime.{Runtime}

pub record CpuPlan : Type 0 where
  pub judge_cpu : ℕ
  pub offline : List ℕ
  pub isolated : Bool
  pub warnings : List Str

abbrev pub Topology : Type 0
Topology = List (ℕ × List ℕ)

-- `range(lo, hi + 1)` with `count` numbers to go
unfoldable pub range_from : ℕ → ℕ → List ℕ
range_from lo zero = []
range_from lo (suc count) = lo ∷ range_from (lo + 1) count

unfoldable pub range_incl : ℕ → ℕ → List ℕ
unfolding range_from
range_incl lo end = range_from lo (end - lo)

module _ (R : Runtime) where
  abbrev or_value_error {ℓ} : {A : Type ℓ} → Option A → Result A
  or_value_error none = err value_error
  or_value_error (some x) = ok x

  -- `int(hi) + 1`, and 0 where that is negative: the range is empty below 0 as it is at 0.
  unfoldable pub range_end : Str → Result ℕ
  range_end [] = or_value_error (R.nat_of [])
  range_end (c ∷ digits) =
      if c == b'-'
      then (do n ← or_value_error (R.nat_of digits); ok (1 - n))
      else (do n ← or_value_error (R.nat_of (c ∷ digits)); ok (n + 1))

  unfoldable pub parse_range : Str × Str → Result (List ℕ)
  parse_range (lo, hi) = do
    first ← or_value_error (R.nat_of lo)
    end ← range_end (strip hi)
    ok (range_incl first end)

  unfoldable pub parse_part : Str → Result (List ℕ)
  parse_part part =
      if part == []
      then ok []
      else if contains b'-' part
      then parse_range (cut_at b'-' part)
      else (do cpu ← or_value_error (R.nat_of part); ok (cpu ∷ []))

  -- The loop over the parts, and what `values` holds after it.
  unfoldable pub parse_parts : List Str → Result (List ℕ)
  parse_parts [] = ok []
  parse_parts (part ∷ parts) = do
    found ← parse_part part
    more ← parse_parts parts
    ok (found ++ more)

  unfoldable pub parse_cpu_list : Str → Result (List ℕ)
  parse_cpu_list text = do
    values ← parse_parts (split_on b',' (strip text))
    ok (sort_by leb values)

unfoldable pub architecture_error : Str → Str
architecture_error machine = codes "x86_64 runner 가 필요합니다. 현재 architecture: " ++ machine

unfoldable pub missing_flags_error : List Str → Str
missing_flags_error missing = codes "CPU 에 다음 flag 가 없습니다: " ++ join (codes ", ") missing

unfoldable pub missing_flags : List Str → List Str → List Str
missing_flags cpu_flags required =
    filter (λ flag. not (flag == []) && not (contains flag cpu_flags)) required

unfoldable pub check_arch_and_flags : Str → List Str → List Str → Result (Unit {0})
check_arch_and_flags machine cpu_flags required =
    if not (machine == codes "x86_64")
    then err (cpu_error (architecture_error machine))
    else if not (missing_flags cpu_flags required == [])
    then err (cpu_error (missing_flags_error (missing_flags cpu_flags required)))
    else ok tt

unfoldable pub no_topology_error : Str
no_topology_error = codes "CPU topology 를 읽지 못했습니다"

unfoldable pub unknown_cpu_error : ℕ → Str
unknown_cpu_error requested =
    codes "judge-cpu " ++ (str_of_nat requested ++ codes " 는 이 runner 에 없습니다")

unfoldable pub requested_warning : Str
requested_warning = codes "judge-cpu 를 직접 지정했습니다. sibling offline 을 하지 않습니다."

unfoldable pub one_core_warning : Str
one_core_warning =
    codes
      "physical core 가 1개뿐입니다. sibling 을 끄지 않고 pin 만 합니다. hyperthread 간섭이 남으므로 timing 은 best-effort 입니다. 4 vCPU 이상 runner 를 권장합니다."

unfoldable pub sibling_warning : Str
sibling_warning = codes "offline-sibling 이 꺼져 있습니다. hyperthread 간섭이 남습니다."

-- `xs[-1]` of a list with a first element
abbrev pub last_of {ℓ} : {A : Type ℓ} → A → List A → A
last_of x [] = x
last_of x (y ∷ ys) = last_of y ys

abbrev pub siblings_of : Topology → List (List ℕ)
siblings_of topology = map (λ (cpu, siblings). siblings) topology

abbrev pub cpus_of : Topology → List ℕ
cpus_of topology = map (λ (cpu, siblings). cpu) topology

-- The last core, taken as a whole, of two or more.
unfoldable pub plan_last_core : List ℕ → Bool → Result CpuPlan
plan_last_core [] offline_sibling = err index_error
plan_last_core (judge_cpu ∷ core) offline_sibling =
    let siblings = filter (λ cpu. not (cpu == judge_cpu)) (judge_cpu ∷ core) in
    if siblings == []
    then ok (record { judge_cpu = judge_cpu; offline = []; isolated = true; warnings = [] })
    else if not offline_sibling
    then ok (record {
      judge_cpu = judge_cpu;
      offline = [];
      isolated = false;
      warnings = sibling_warning ∷ [];
    })
    else ok (record { judge_cpu = judge_cpu; offline = siblings; isolated = true; warnings = [] })

unfoldable pub plan_one_core : List ℕ → Result CpuPlan
plan_one_core [] = err index_error
plan_one_core (cpu ∷ core) = ok (record {
  judge_cpu = last_of cpu core;
  offline = [];
  isolated = false;
  warnings = one_core_warning ∷ [];
})

-- The plan for the sorted cores. (`cores[-1]` of no core cannot be reached: the topology is not empty.)
unfoldable pub plan_cores : List (List ℕ) → Bool → Result CpuPlan
plan_cores [] offline_sibling = err index_error
plan_cores (core ∷ []) offline_sibling = plan_one_core core
plan_cores (core ∷ next ∷ cores) offline_sibling =
    plan_last_core (last_of next cores) offline_sibling

unfoldable pub plan_requested : Topology → ℕ → Result CpuPlan
plan_requested topology requested =
    if not (contains requested (cpus_of topology))
    then err (cpu_error (unknown_cpu_error requested))
    else ok (record {
      judge_cpu = requested;
      offline = [];
      isolated = false;
      warnings = requested_warning ∷ [];
    })

unfoldable pub plan_cpu : Topology → Option ℕ → Bool → Result CpuPlan
plan_cpu [] requested offline_sibling = err (cpu_error no_topology_error)
plan_cpu (entry ∷ topology) (some requested) offline_sibling =
    plan_requested (entry ∷ topology) requested
plan_cpu (entry ∷ topology) none offline_sibling =
    plan_cores (sort_by lex_le (unique (siblings_of (entry ∷ topology)))) offline_sibling

-- `apply_cpu_plan`. The call of `sudo tee` is a parameter: the text of its exception, or `none`.
unfoldable pub offline_warning : ℕ → Str → Str
offline_warning cpu failure =
    codes "cpu" ++ (str_of_nat cpu ++ (codes " offline 에 실패했습니다: " ++ failure))

abbrev pub warn_onto : ℕ → Option Str → List Str → List Str
warn_onto cpu none warnings = warnings
warn_onto cpu (some failure) warnings = offline_warning cpu failure ∷ warnings

unfoldable pub apply_offline : (ℕ → Option Str) → List ℕ → List Str
apply_offline set_offline [] = []
apply_offline set_offline (cpu ∷ cpus) =
    warn_onto cpu (set_offline cpu) (apply_offline set_offline cpus)

unfoldable pub apply_cpu_plan : (ℕ → Option Str) → CpuPlan → List Str
apply_cpu_plan set_offline plan = apply_offline set_offline plan.offline
