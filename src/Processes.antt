-- ===== src/Processes.antt =====
-- What the two runners in the container, image/runner.py and image/interactive_runner.py, ask of the
-- operating system, and the shape of their loops.
pub mod Clock
pub mod Life
pub mod Loops
use problem_verifier.Prelude.{
  ℕ, Bool, true, false, Option, none, some, List, [], ◌∷◌, Str, ℤ, pos, negsuc, ◌≡◌, refl, ap, ◌⊎◌,
  inl, inr,
}
use problem_verifier.Prelude.Result.{Result, ok, err, Exc, os_error}
use problem_verifier.Runtime.{Runtime}
use problem_verifier.Steps.{◌>>=◌, ◌>>◌, pure, raise, bind_ended, Ends}

pub data Child : Type 0 where
  the_solution the_validator : Child

-- The status that a wait gives back: an exit code, or the signal that ended the process.
pub data Status : Type 0 where
  exited : ℕ → Status
  signaled : ℕ → Status

pub record Usage (R : Runtime) : Type 0 where
  pub utime : R.Float
  pub stime : R.Float
  pub maxrss : ℕ

-- The limits that a child sets on itself: the CPU time, soft and hard, and the size of a core file.
pub record ChildLimits : Type 0 where
  pub cpu_soft : ℕ
  pub cpu_hard : ℕ
  pub core : ℕ

-- The operating system, with a state of its own. A call may do anything to that state, and other
-- processes and the thread that watches the output run between the calls.
pub record Kernel (R : Runtime) : Type 1 where
  pub State : Type 0
  -- `time.monotonic()` and `time.sleep(seconds)`
  pub monotonic : State → R.Float × State
  pub sleep : R.Float → State → State
  -- `subprocess.Popen` of a command, in a session of its own; `false` is an `OSError`.
  pub spawn : Child → List Str → Option ChildLimits → State → Bool × State
  -- `os.wait4(pid, os.WNOHANG)`, where `none` is the pid 0, and `os.wait4(pid, 0)`
  pub poll : Child → State → Option (Status × Usage R) × State
  pub wait : Child → State → (Status × Usage R) × State
  -- `os.killpg(pid, SIGKILL)`; `false` is the `ProcessLookupError`.
  pub kill_group : Child → State → Bool × State
  -- `os.path.getsize` of the file for the output; `none` is the `OSError`.
  pub output_size : State → Option ℕ × State
  -- Whether the watching thread has returned `True` by now.
  pub watched : State → Bool × State

-- What is recorded of the calls.
pub data Event : Type 0 where
  started : Child → Event
  reaped : Child → Event
  killed : Child → Event

module _ {R : Runtime} (K : Kernel R) where
  -- The events so far, the last one first.
  pub record System : Type 0 where
    pub kernel : K.State
    pub events : List Event

  abbrev pub P : Type 0 → Type 0
  P A = System → Result A × System

  abbrev pub now : P R.Float
  now s = let (t, k) = K.monotonic s.kernel in (ok t, record s { kernel = k })

  abbrev pub sleep : R.Float → P (Unit {0})
  sleep seconds s = (ok tt, record s { kernel = K.sleep seconds s.kernel })

  abbrev pub after_spawn : Child → System → Bool × K.State → Result (Unit {0}) × System
  after_spawn child s (true, k) =
      (ok tt, record s { kernel = k; events = started child ∷ s.events })
  after_spawn child s (false, k) = (err os_error, record s { kernel = k })

  abbrev pub start : Child → List Str → Option ChildLimits → P (Unit {0})
  start child argv limits s = after_spawn child s (K.spawn child argv limits s.kernel)

  abbrev pub after_poll :
      Child
      → System
      → Option (Status × Usage R) × K.State
      → Result (Option (Status × Usage R)) × System
  after_poll child s (none, k) = (ok none, record s { kernel = k })
  after_poll child s (some ended, k) =
      (ok (some ended), record s { kernel = k; events = reaped child ∷ s.events })

  abbrev pub try_reap : Child → P (Option (Status × Usage R))
  try_reap child s = after_poll child s (K.poll child s.kernel)

  abbrev pub reap : Child → P (Status × Usage R)
  reap child s =
      let (ended, k) = K.wait child s.kernel in
      (ok ended, record s { kernel = k; events = reaped child ∷ s.events })

  abbrev pub kill : Child → P Bool
  kill child s =
      let (found, k) = K.kill_group child s.kernel in
      (ok found, record s { kernel = k; events = killed child ∷ s.events })

  abbrev pub output_size : P (Option ℕ)
  output_size s = let (size, k) = K.output_size s.kernel in (ok size, record s { kernel = k })

  abbrev pub watched : P Bool
  watched s = let (too_large, k) = K.watched s.kernel in (ok too_large, record s { kernel = k })

abbrev pub must_find : {S : Type 0} → Bool → S → Result (Unit {0}) × S
must_find true = pure tt
must_find false = raise os_error

-- `os.waitstatus_to_exitcode(status) if os.WIFEXITED(status) else -1`, and `os.WTERMSIG(status)` or 0
abbrev pub exit_code_of : Status → ℤ
exit_code_of (exited code) = pos code
exit_code_of (signaled signal) = negsuc 0

abbrev pub signal_of : Status → ℕ
signal_of (exited code) = 0
signal_of (signaled signal) = signal

-- What holds behind the calls that may fail: the one exception is an `OSError`.
abbrev pub IsOsError : Exc → Type 0
IsOsError e = e ≡ os_error

-- What holds behind calls that cannot fail.
abbrev pub NoError : Exc → Type 0
NoError e = ⊥

pub Ends-NoError :
    {S A : Type 0} (F : Exc → Type 0) (Q : A → S → Type 0) (r : Result A × S)
    → Ends NoError Q r
    → Ends F Q r
Ends-NoError F Q (ok a, s) h = h
Ends-NoError F Q (err e, s) h = elim h [ ]

module _ {R : Runtime} (K : Kernel R) where
  pub after_spawn-Ends :
      {A : Type 0} (Q : A → System K → Type 0) (child : Child) (s : System K)
      (spawned : Bool × K.State) (rest : Unit {0} → System K → Result A × System K)
      → Ends IsOsError Q
          (rest tt (record { kernel = spawned.1; events = started child ∷ s.events }))
      → Ends IsOsError Q (bind_ended (after_spawn K child s spawned) rest)
  after_spawn-Ends Q child s (true, k) rest h = h
  after_spawn-Ends Q child s (false, k) rest h = refl

  -- What a run comes to in the end.
  abbrev pub IsReport : {A : Type 0} → Option A → System K → Type 0
  IsReport {A} result s = (report : A) × (result ≡ some report)

  pub of_Ends-IsReport :
      {A : Type 0} (r : Result (Option A) × System K)
      → Ends IsOsError IsReport r
      → (r.0 ≡ err os_error) ⊎ ((report : A) × (r.0 ≡ ok (some report)))
  of_Ends-IsReport (ok result, s) (report, e) = inr (report, ap ok e)
  of_Ends-IsReport (err e, s) h = inl (ap err h)
