-- ===== src/Cpu/Host.antt =====
-- When a host is fit, when a plan is found, and what the warnings of `apply_cpu_plan` say.
use problem_verifier.Prelude.{
  ℕ, Bool, true, false, ◌≡◌, refl, ◌≢◌, ◌↔◌, ◌⊎◌, ◌∙◌, subst, List, [], ◌∷◌, Option, none, some,
  arith, contains, nat_eq, list_eq, Str, codes, All,
}
use problem_verifier.Prelude.Result.{ok, ok_of-is_ok}
use problem_verifier.Sorting.{sort_by, unique, lex_le, contains-sort_by, contains-unique}
use problem_verifier.Cpu.{
  CpuPlan, Topology, last_of, siblings_of, cpus_of, plan_last_core, plan_one_core, plan_cores,
  plan_requested, plan_cpu, missing_flags, check_arch_and_flags, apply_offline, apply_cpu_plan,
}
use problem_verifier.Cpu.Plan.{contains-last_of}

-- A required flag is met: it is empty, or the CPU has it.
abbrev pub IsMet : List Str → Str → Type 0
IsMet cpu_flags flag = (flag ≡ []) ⊎ (contains flag cpu_flags ≡ true)

missing_flags_iff :
    (cpu_flags required : List Str)
    → (missing_flags cpu_flags required ≡ []) ↔ All (IsMet cpu_flags) required
unfolding missing_flags
missing_flags_iff cpu_flags [] = (λ h. tt, λ h. refl)
missing_flags_iff cpu_flags (flag ∷ required) = (
  λ h. ground (arith, missing_flags_iff cpu_flags required),
  λ h. ground (arith, (missing_flags_iff cpu_flags required).1 h.1),
)

-- A host passes exactly if it is an x86_64 and its CPU has every required flag that is not empty.
pub check_arch_and_flags-ok_iff :
    (machine : Str) (cpu_flags required : List Str)
    → (check_arch_and_flags machine cpu_flags required ≡ ok tt)
      ↔ ((machine ≡ codes "x86_64") × All (IsMet cpu_flags) required)
unfolding check_arch_and_flags
check_arch_and_flags-ok_iff machine cpu_flags required =
    let (sound, complete) = missing_flags_iff cpu_flags required in
    (λ h. (ground arith, sound (ground arith)), λ h. ground (arith, complete h.1))

-- Every core has a CPU.
abbrev pub NoEmptyCore : List (List ℕ) → Type 0
NoEmptyCore cores = contains [] cores ≡ false

plan_last_core_total :
    (core : List ℕ) (offline_sibling : Bool)
    → core ≢ []
    → (plan : CpuPlan) × (plan_last_core core offline_sibling ≡ ok plan)
unfolding plan_last_core
plan_last_core_total [] offline_sibling n = absurd (n refl)
plan_last_core_total (judge_cpu ∷ core) offline_sibling n =
    ok_of-is_ok (plan_last_core (judge_cpu ∷ core) offline_sibling) (ground arith)

plan_cores_total :
    (cores : List (List ℕ)) (offline_sibling : Bool)
    → cores ≢ []
    → NoEmptyCore cores
    → (plan : CpuPlan) × (plan_cores cores offline_sibling ≡ ok plan)
unfolding plan_cores plan_one_core
plan_cores_total [] offline_sibling n f = absurd (n refl)
plan_cores_total ([] ∷ []) offline_sibling n f = absurd (ground arith)
plan_cores_total ((cpu ∷ core) ∷ []) offline_sibling n f = (_, refl)
plan_cores_total (core ∷ next ∷ cores) offline_sibling n f =
    plan_last_core_total (last_of next cores) offline_sibling λ e.
      let empty : contains [] (next ∷ cores) ≡ true =
        subst (λ c. contains c (next ∷ cores) ≡ true) e (contains-last_of next cores) in
      ground arith

contains-ne-nil : (core : List ℕ) (cores : List (List ℕ)) → contains core cores ≡ true → cores ≢ []
contains-ne-nil core [] h = cc
contains-ne-nil core (c ∷ cores) h = cc

-- A plan is found for every topology that is not empty and has no empty core, unless a CPU is asked for
-- that it lacks.
pub plan_cpu_total :
    (topology : Topology) (requested : Option ℕ) (offline_sibling : Bool)
    → topology ≢ []
    → NoEmptyCore (siblings_of topology)
    → ((cpu : ℕ) → requested ≡ some cpu → contains cpu (cpus_of topology) ≡ true)
    → (plan : CpuPlan) × (plan_cpu topology requested offline_sibling ≡ ok plan)
unfolding plan_cpu plan_requested
plan_cpu_total [] requested offline_sibling n f has = absurd (n refl)
plan_cpu_total (entry ∷ topology) (some cpu) offline_sibling n f has =
    ok_of-is_ok (plan_cpu (entry ∷ topology) (some cpu) offline_sibling)
      (ground (arith, has cpu refl))
plan_cpu_total ((cpu, core) ∷ topology) none offline_sibling n f has =
    let all = core ∷ siblings_of topology in
    let same : (c : List ℕ) → contains c (sort_by lex_le (unique all)) ≡ contains c all =
      λ c. contains-sort_by lex_le c (unique all) ∙ contains-unique c all in
    plan_cores_total (sort_by lex_le (unique all)) offline_sibling
      (contains-ne-nil core _ (same core ∙ ground arith)) (same [] ∙ f)

apply_offline-nil_iff :
    (set_offline : ℕ → Option Str) (cpus : List ℕ)
    → (apply_offline set_offline cpus ≡ []) ↔ All (λ cpu. set_offline cpu ≡ none) cpus
unfolding apply_offline
apply_offline-nil_iff set_offline [] = (λ h. tt, λ h. refl)
apply_offline-nil_iff set_offline (cpu ∷ cpus) =
    let (sound, complete) = apply_offline-nil_iff set_offline cpus in
    (λ h. ground (arith, apply_offline-nil_iff set_offline cpus), λ h. rw h.0 (complete h.1))

-- There is no warning exactly when every CPU of the plan could be switched off.
pub apply_cpu_plan-quiet_iff :
    (set_offline : ℕ → Option Str) (plan : CpuPlan)
    → (apply_cpu_plan set_offline plan ≡ []) ↔ All (λ cpu. set_offline cpu ≡ none) plan.offline
unfolding apply_cpu_plan
apply_cpu_plan-quiet_iff set_offline plan = apply_offline-nil_iff set_offline plan.offline
