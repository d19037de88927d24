-- ===== src/Sandbox/Cleanup.antt =====
-- Every container that `run_sandbox` starts is removed, however the run goes.
use problem_verifier.Prelude.{
  Bool, true, ◌≡◌, refl, List, ◌∷◌, ◌++◌, Str, Bytes, codes, ℤ, negsuc, arith, ◌∙◌, subst, sym,
}
use problem_verifier.Prelude.Result.{Result, ok, err}
use problem_verifier.Runtime.{Runtime}
use problem_verifier.World.{Ended, completed, expired, missing, Engine, World, M}
use problem_verifier.Steps.{bind_ended, ◌>>=◌, pure, keep_outcome, clean_after}
use problem_verifier.Sandbox.{
  SandboxSpec, SandboxResult, build_run_argv, docker, docker_done, must_complete, after_run,
  kill_args, inspect_args, remove_args, run_and_inspect, remove_container, container_name,
  run_sandbox,
}

-- The calls made on the way: nothing but `docker kill` and `docker inspect` of the one container.
pub data OnlyAbout (name : Str) (before : List (List Str)) : List (List Str) → Type 0 where
  start : OnlyAbout name before before
  kill :
      {calls : List (List Str)}
      → OnlyAbout name before calls
      → OnlyAbout name before (kill_args name ∷ calls)
  inspect :
      {calls : List (List Str)}
      → OnlyAbout name before calls
      → OnlyAbout name before (inspect_args name ∷ calls)

module _ {R : Runtime} (E : Engine R) where
  bind_calls :
      {A B : Type 0} (f : A → M E B) (r : Result A) (w : World E)
      → ((a : A) (w : World E) → (f a w).1.calls ≡ w.calls)
      → (bind_ended (r, w) f).1.calls ≡ w.calls
  bind_calls f (ok a) w same = same a w
  bind_calls f (err e) w same = refl

  must_complete-calls : (ended : Ended) (w : World E) → (must_complete E ended w).1.calls ≡ w.calls
  must_complete-calls (completed code out err') w = refl
  must_complete-calls (expired out err') w = refl
  must_complete-calls missing w = refl

  docker-calls :
      (args : List Str) (timeout : R.Float) (w : World E)
      → (docker E args timeout w).1.calls ≡ args ∷ w.calls
  unfolding docker
  docker-calls args timeout w = ground arith

  docker_done-calls :
      (args : List Str) (w : World E) → (docker_done E args w).1.calls ≡ args ∷ w.calls
  unfolding docker_done
  docker_done-calls args w =
      bind_calls (must_complete E) (docker E args (R.of_nat 30) w).0
        (docker E args (R.of_nat 30) w).1 must_complete-calls
      ∙ docker-calls args (R.of_nat 30) w

  keep_calls :
      {A : Type 0} (r : Result A) (c : Result (Unit {0}) × World E)
      → (keep_outcome r c).1.calls ≡ c.1.calls
  keep_calls r (ok _, w) = refl
  keep_calls r (err e, w) = refl

  module _ (P : List (List Str) → Type 0) where
    -- A step keeps a property of the calls so far.
    abbrev Keeps : {A : Type 0} → M E A → Type 0
    Keeps m = (w : World E) → P w.calls → P (m w).1.calls

    bind_ended-Keeps :
        {A B : Type 0} (f : A → M E B) (r : Result A) (w : World E)
        → ((a : A) → Keeps (f a))
        → P w.calls
        → P (bind_ended (r, w) f).1.calls
    bind_ended-Keeps f (ok a) w kf h = kf a w h
    bind_ended-Keeps f (err e) w kf h = h

    bind-Keeps :
        {A B : Type 0} (m : M E A) (f : A → M E B)
        → Keeps m
        → ((a : A) → Keeps (f a))
        → Keeps (m >>= f)
    bind-Keeps m f km kf w h = bind_ended-Keeps f (m w).0 (m w).1 kf (km w h)

    docker_done-Keeps :
        (args : List Str)
        → ((calls : List (List Str)) → P calls → P (args ∷ calls))
        → Keeps (docker_done E args)
    unfolding docker_done
    docker_done-Keeps args step =
        bind-Keeps (docker E args (R.of_nat 30)) (must_complete E)
          (λ w h. subst P (sym (docker-calls args (R.of_nat 30) w)) (step w.calls h)) finish
      where
        finish : (ended : Ended) → Keeps (must_complete E ended)
        finish (completed code out err') w h = h
        finish (expired out err') w h = h
        finish missing w h = h

  module _ (spec : SandboxSpec R) (name : Str) where
    after_run-Keeps :
        (before : List (List Str)) (ended : Ended)
        → Keeps (OnlyAbout name before) (after_run E name ended)
    after_run-Keeps before (completed code out err') w h = h
    after_run-Keeps before missing w h = h
    after_run-Keeps before (expired out err') w h =
        bind-Keeps (OnlyAbout name before) {B = ℤ × Bytes × Bytes × Bool}
          (docker_done E (kill_args name)) (λ _. pure (negsuc 0, out, err', true))
          (docker_done-Keeps (OnlyAbout name before) (kill_args name) (λ calls. kill)) (λ a w h. h)
          w h

    run_and_inspect-calls :
        (w : World E)
        → OnlyAbout name
            (build_run_argv R spec name ∷ w.calls)
            (run_and_inspect E spec name w).1.calls
    unfolding run_and_inspect
    run_and_inspect-calls w =
        let argv = build_run_argv R spec name in
        bind_ended-Keeps (OnlyAbout name (argv ∷ w.calls)) _ (docker E argv spec.timeout w).0
          (docker E argv spec.timeout w).1
          (λ ended.
            bind-Keeps (OnlyAbout name (argv ∷ w.calls)) (after_run E name ended) _
              (after_run-Keeps (argv ∷ w.calls) ended)
              λ outcome.
                bind-Keeps (OnlyAbout name (argv ∷ w.calls)) (docker_done E (inspect_args name)) _
                  (docker_done-Keeps (OnlyAbout name (argv ∷ w.calls)) (inspect_args name)
                    (λ calls. inspect))
                  (λ inspected w h. h))
          (subst (OnlyAbout name (argv ∷ w.calls)) (sym (docker-calls argv spec.timeout w)) start)

    remove_container-calls :
        (w : World E) → (remove_container E name w).1.calls ≡ remove_args name ∷ w.calls
    unfolding remove_container docker_done
    remove_container-calls w =
        bind_calls (λ _. pure tt) (docker_done E (remove_args name) w).0
          (docker_done E (remove_args name) w).1 (λ a w. refl)
        ∙ docker_done-calls (remove_args name) w

    removed_last :
        (r : Result SandboxResult) (w : World E)
        → (clean_after (r, w) (remove_container E name)).1.calls ≡ remove_args name ∷ w.calls
    removed_last r w = keep_calls r (remove_container E name w) ∙ remove_container-calls w

-- The calls of `docker` that a run adds: first `docker run` with the container's name, then only calls
-- that kill or inspect that container, and last, whatever happened in between, the one that removes it.
pub run_sandbox_removes :
    {R : Runtime} (E : Engine R) (spec : SandboxSpec R) (w : World E)
    → (name : Str) × (between : List (List Str)) × ((run_sandbox E spec w).1.calls
        ≡ remove_args name ∷ between)
      × OnlyAbout name (build_run_argv R spec name ∷ w.calls) between
unfolding run_sandbox container_name
run_sandbox_removes {R} E spec w =
    let (hex, s) = E.fresh w.engine in
    let name = codes "icpc-" ++ hex in
    let started : World E = record w { engine = s } in
    (
      name,
      (run_and_inspect E spec name started).1.calls,
      removed_last E spec name (run_and_inspect E spec name started).0
          (run_and_inspect E spec name started).1,
      run_and_inspect-calls E spec name started,
    )
