-- ===== src/Examples/Hosts.antt =====
-- A host with two cores of two CPUs each, and its containers.
use problem_verifier.Prelude.{
  ℕ, true, false, ◌≡◌, refl, ◌↔◌, ◌⊎◌, List, [], ◌∷◌, codes, Str, arith, Option, none, some,
  contains, leb, All, nat_eq, list_eq,
}
use problem_verifier.Prelude.Result.{ok}
use problem_verifier.Sorting.{IsSorted}
use problem_verifier.Runtime.Milli.{MilliRuntime-ReadsDecimals}
use problem_verifier.Cpu.{
  CpuPlan, Topology, requested_warning, siblings_of, cpus_of, parse_cpu_list, plan_cpu,
  check_arch_and_flags, apply_cpu_plan,
}
use problem_verifier.Cpu.Lists.{one, span, covers, render_list, parse_cpu_list-render}
use problem_verifier.Cpu.Plan.{IsSafeFor, HasOther, plan_cpu_safe, plan_cpu_requested}
use problem_verifier.Cpu.Host.{plan_cpu_total, apply_cpu_plan-quiet_iff}
use problem_verifier.Examples.Fixtures.{R, no_json}

abbrev two_cores : Topology
two_cores = (0, 0 ∷ 2 ∷ []) ∷ (1, 1 ∷ 3 ∷ []) ∷ (2, 0 ∷ 2 ∷ []) ∷ (3, 1 ∷ 3 ∷ []) ∷ []

abbrev last_core_plan : CpuPlan
last_core_plan = record { judge_cpu = 1; offline = 3 ∷ []; isolated = true; warnings = [] }

abbrev requested_plan : CpuPlan
requested_plan = record {
  judge_cpu = 2;
  offline = [];
  isolated = false;
  warnings = requested_warning ∷ [];
}

parse_cpu_list-render_example :
    (values : List ℕ) × (parse_cpu_list R (render_list (span 8 11 ∷ one 2 ∷ [])) ≡ ok values)
    × IsSorted leb values
    × ((c : ℕ) → contains c values ≡ covers c (span 8 11 ∷ one 2 ∷ []))
parse_cpu_list-render_example =
    parse_cpu_list-render R (span 8 11 ∷ one 2 ∷ []) (MilliRuntime-ReadsDecimals no_json)
      (ground arith)

plan_cpu_safe_example :
    (core : List ℕ) × (contains core (siblings_of two_cores) ≡ true)
    × IsSafeFor core last_core_plan
    × ((last_core_plan.offline ≡ []) ⊎ HasOther core (siblings_of two_cores))
unfolding plan_cpu problem_verifier.Cpu.plan_cores problem_verifier.Sorting.sort_by
    problem_verifier.Sorting.unique list_eq nat_eq problem_verifier.Sorting.lex_le
    problem_verifier.Cpu.plan_last_core
plan_cpu_safe_example = plan_cpu_safe two_cores true {plan = last_core_plan} refl

plan_cpu_requested_example :
    (contains 2 (cpus_of two_cores) ≡ true)
    × (requested_plan.judge_cpu ≡ 2)
    × (requested_plan.offline ≡ [])
    × (requested_plan.isolated ≡ false)
unfolding plan_cpu problem_verifier.Cpu.plan_requested nat_eq
plan_cpu_requested_example = plan_cpu_requested two_cores 2 true {plan = requested_plan} refl

plan_cpu_total_example : (plan : CpuPlan) × (plan_cpu two_cores (some 3) false ≡ ok plan)
unfolding list_eq
plan_cpu_total_example =
    plan_cpu_total two_cores (some 3) false (ground arith) refl (λ cpu e. ground arith)

abbrev refuse : ℕ → Option Str
refuse cpu = some (codes "EPERM")

apply_cpu_plan-quiet_iff_example :
    (apply_cpu_plan refuse last_core_plan ≡ [])
    ↔ All (λ cpu. refuse cpu ≡ none) last_core_plan.offline
apply_cpu_plan-quiet_iff_example = apply_cpu_plan-quiet_iff refuse last_core_plan
