-- ===== src/Cpu/Plan.antt =====
-- What `plan_cpu` promises of the CPU that it picks and of those that it switches off.
use problem_verifier.Prelude.{
  ℕ, Bool, true, false, not, ◌&&◌, ◌≡◌, ◌≢◌, refl, ◌⊎◌, inl, inr, ◌∙◌, sym, List, [], ◌∷◌, none,
  some, arith, filter, contains, Bool-cases, nat_eq, list_eq, ◌==◌, Eq, Str, subst,
}
use problem_verifier.Prelude.Result.{ok, ok-injective}
use problem_verifier.Sorting.{
  sort_by, unique, lex_le, contains-sort_by, contains-unique, Distinct, unique-Distinct,
  sort_by-Distinct,
}
use problem_verifier.Cpu.{
  CpuPlan, Topology, sibling_warning, last_of, siblings_of, cpus_of, plan_last_core, plan_one_core,
  plan_cores, plan_requested, plan_cpu,
}

contains-filter :
    (p : ℕ → Bool) (c : ℕ) (xs : List ℕ) → contains c (filter p xs) ≡ (contains c xs && p c)
contains-filter p c [] = refl
contains-filter p c (x ∷ xs) = ground (arith, contains-filter p c xs)

pub contains-last_of {ℓ} :
    {A : Type ℓ} ⦃e : Eq A⦄ (x : A) (xs : List A) → contains (last_of x xs) (x ∷ xs) ≡ true
contains-last_of x [] = ground arith
contains-last_of x (y ∷ ys) = ground (arith, contains-last_of y ys)

-- A plan for a core: the judge runs on a CPU of it and on none that is switched off, only CPUs of it
-- are switched off, and an isolated plan leaves none of its other CPUs on.
pub record IsSafeFor (core : List ℕ) (plan : CpuPlan) : Type 0 where
  pub on_core : contains plan.judge_cpu core ≡ true
  pub stays_on : contains plan.judge_cpu plan.offline ≡ false
  pub only_core : (cpu : ℕ) → contains cpu plan.offline ≡ true → contains cpu core ≡ true
  pub alone :
      plan.isolated ≡ true
      → (cpu : ℕ) → contains cpu core ≡ true
      → (cpu ≡ plan.judge_cpu) ⊎ (contains cpu plan.offline ≡ true)

plan_one_core_lem :
    (core : List ℕ) {plan : CpuPlan}
    → plan_one_core core ≡ ok plan
    → IsSafeFor core plan × (plan.offline ≡ [])
unfolding plan_one_core
plan_one_core_lem [] h = cc
plan_one_core_lem (cpu ∷ core) h =
    subst (λ plan. IsSafeFor (cpu ∷ core) plan × (plan.offline ≡ [])) (ok-injective h)
      (
        record {
          on_core = contains-last_of cpu core;
          stays_on = refl;
          only_core = λ c k. cc;
          alone = λ k. cc;
        },
        refl,
      )

abbrev others : ℕ → List ℕ → List ℕ
others judge_cpu core = filter (λ cpu. not (cpu == judge_cpu)) core

others-nil :
    (judge_cpu : ℕ) (core : List ℕ) (cpu : ℕ)
    → others judge_cpu core ≡ []
    → contains cpu core ≡ true
    → cpu ≡ judge_cpu
others-nil judge_cpu core cpu e k =
    let none_left : contains cpu (others judge_cpu core) ≡ false = rw e in
    ground (arith, contains-filter (λ cpu. not (cpu == judge_cpu)) cpu core)

module _ (judge_cpu : ℕ) (core : List ℕ) where
  -- With no other CPU, or with the others left on, nothing is switched off.
  plan_none_off :
      (isolated : Bool) (warnings : List Str)
      → (isolated ≡ true → others judge_cpu (judge_cpu ∷ core) ≡ [])
      → IsSafeFor
          (judge_cpu ∷ core)
          (record { judge_cpu = judge_cpu; offline = []; isolated = isolated; warnings = warnings })
  plan_none_off isolated warnings h = record {
    on_core = ground arith;
    stays_on = refl;
    only_core = λ c k. cc;
    alone = λ on c k. inl (others-nil judge_cpu (judge_cpu ∷ core) c (h on) k);
  }

  plan_others_off : IsSafeFor (judge_cpu ∷ core) (record {
    judge_cpu = judge_cpu;
    offline = others judge_cpu (judge_cpu ∷ core);
    isolated = true;
    warnings = [];
  })
  plan_others_off = record {
    on_core = ground arith;
    stays_on = is_other judge_cpu ∙ ground arith;
    only_core = λ c k. ground (arith, is_other c);
    alone = λ on c k. ground (arith, is_other c);
  }
    where
      is_other :
          (c : ℕ)
          → contains c (others judge_cpu (judge_cpu ∷ core))
            ≡ (contains c (judge_cpu ∷ core) && not (c == judge_cpu))
      is_other c = contains-filter (λ cpu. not (cpu == judge_cpu)) c (judge_cpu ∷ core)

plan_last_core_lem :
    (core : List ℕ) (offline_sibling : Bool) {plan : CpuPlan}
    → plan_last_core core offline_sibling ≡ ok plan
    → IsSafeFor core plan
unfolding plan_last_core
plan_last_core_lem [] offline_sibling h = cc
plan_last_core_lem (judge_cpu ∷ core) offline_sibling h =
    elim (Bool-cases (others judge_cpu (judge_cpu ∷ core) == [])) [
      | inl e ↦
          subst (IsSafeFor (judge_cpu ∷ core)) (ok-injective (rw e at h))
            (plan_none_off judge_cpu core true [] (λ _. ground arith))
      | inr e ↦ elim (Bool-cases offline_sibling) [
        | inl on ↦
            subst (IsSafeFor (judge_cpu ∷ core)) (ok-injective (rw (e, on) at h))
              (plan_others_off judge_cpu core)
        | inr off ↦
            subst (IsSafeFor (judge_cpu ∷ core)) (ok-injective (rw (e, off) at h))
              (plan_none_off judge_cpu core false (sibling_warning ∷ []) (λ k. cc))
      ]
    ]

-- A core that is not the given one.
abbrev pub HasOther : List ℕ → List (List ℕ) → Type 0
HasOther core cores = (other : List ℕ) × (contains other cores ≡ true) × (other ≢ core)

-- The plan is safe for one of the sorted cores, and leaves all on where there is no other.
abbrev PlansFor : List (List ℕ) → CpuPlan → Type 0
PlansFor cores plan =
    (core : List ℕ) × (contains core cores ≡ true)
    × IsSafeFor core plan
    × ((plan.offline ≡ []) ⊎ HasOther core cores)

plan_cores_lem :
    (cores : List (List ℕ)) (offline_sibling : Bool) {plan : CpuPlan}
    → Distinct cores
    → plan_cores cores offline_sibling ≡ ok plan
    → PlansFor cores plan
unfolding plan_cores
plan_cores_lem [] offline_sibling d h = cc
plan_cores_lem (core ∷ []) offline_sibling d h =
    let (safe, off) = plan_one_core_lem core h in (core, ground arith, safe, inl off)
plan_cores_lem (core ∷ next ∷ cores) offline_sibling d h =
    let last = last_of next cores in
    let listed : contains last (next ∷ cores) ≡ true = contains-last_of next cores in
    (
      last,
      ground arith,
      plan_last_core_lem last offline_sibling h,
      inr (
        core,
        ground arith,
        λ same.
            let seen = subst (λ c. contains c (next ∷ cores) ≡ true) (sym same) listed in
            ground arith,
      ),
    )

alone_among :
    (core : List ℕ) (plan : CpuPlan) (all cores : List (List ℕ))
    → ((core : List ℕ) → contains core cores ≡ contains core all)
    → (plan.offline ≡ []) ⊎ HasOther core cores
    → (plan.offline ≡ []) ⊎ HasOther core all
alone_among core plan all cores same (inl off) = inl off
alone_among core plan all cores same (inr (other, listed, differs)) =
    inr (other, sym (same other) ∙ listed, differs)

-- A plan that was not asked for a CPU is safe for one of the topology's cores: the judge runs on a CPU
-- of that core which stays on, only CPUs of that core are switched off, and all its others are if the
-- plan says isolated. Where the topology has no other core, nothing is switched off.
pub plan_cpu_safe :
    (topology : Topology) (offline_sibling : Bool) {plan : CpuPlan}
    → plan_cpu topology none offline_sibling ≡ ok plan
    → (core : List ℕ) × (contains core (siblings_of topology) ≡ true)
      × IsSafeFor core plan
      × ((plan.offline ≡ []) ⊎ HasOther core (siblings_of topology))
unfolding plan_cpu
plan_cpu_safe [] offline_sibling h = cc
plan_cpu_safe (entry ∷ topology) offline_sibling {plan} h =
    let all = siblings_of (entry ∷ topology) in
    let same_items : (core : List ℕ)
        → contains core (sort_by lex_le (unique all)) ≡ contains core all =
      λ core. contains-sort_by lex_le core (unique all) ∙ contains-unique core all in
    let distinct = sort_by-Distinct lex_le (unique all) (unique-Distinct all) in
    let (core, listed, safe, alone) =
      plan_cores_lem (sort_by lex_le (unique all)) offline_sibling distinct h in
    (
      core,
      sym (same_items core) ∙ listed,
      safe,
      alone_among core plan all (sort_by lex_le (unique all)) same_items alone,
    )

-- A CPU that was asked for is used only if the topology has it; then nothing is switched off and
-- the plan does not claim isolation.
pub plan_cpu_requested :
    (topology : Topology) (requested : ℕ) (offline_sibling : Bool) {plan : CpuPlan}
    → plan_cpu topology (some requested) offline_sibling ≡ ok plan
    → (contains requested (cpus_of topology) ≡ true)
      × (plan.judge_cpu ≡ requested)
      × (plan.offline ≡ [])
      × (plan.isolated ≡ false)
unfolding plan_cpu plan_requested
plan_cpu_requested [] requested offline_sibling h = cc
plan_cpu_requested (entry ∷ topology) requested offline_sibling h = ground arith
