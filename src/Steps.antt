-- ===== src/Steps.antt =====
-- Steps that change a state and may raise an exception, as the functions of the program and of the
-- runners in the container are: what a step did to the state stays done.
use problem_verifier.Prelude.{◌≡◌, subst}
use problem_verifier.Prelude.Result.{Result, ok, err, ok-injective, Exc}

module _ {S : Type 0} where
  abbrev pub bind_ended : {A B : Type 0} → Result A × S → (A → S → Result B × S) → Result B × S
  bind_ended (ok a, s) f = f a s
  bind_ended (err e, s) f = (err e, s)

  infixl 5 ◌>>=◌ ◌>>◌
  abbrev pub ◌>>=◌ : {A B : Type 0} → (S → Result A × S) → (A → S → Result B × S) → S → Result B × S
  ◌>>=◌ m f s = bind_ended (m s) f

  abbrev pub ◌>>◌ :
      {B : Type 0} → (S → Result (Unit {0}) × S) → (S → Result B × S) → S → Result B × S
  m >> k = m >>= λ _. k

  abbrev pub pure : {A : Type 0} → A → S → Result A × S
  pure a s = (ok a, s)

  abbrev pub raise : {A : Type 0} → Exc → S → Result A × S
  raise e s = (err e, s)

  abbrev pub lift : {A : Type 0} → Result A → S → Result A × S
  lift r s = (r, s)

  -- `try: m finally: clean`. An exception of `clean` takes the place of the outcome.
  abbrev pub keep_outcome : {A : Type 0} → Result A → Result (Unit {0}) × S → Result A × S
  keep_outcome r (ok _, s) = (r, s)
  keep_outcome r (err e, s) = (err e, s)

  abbrev pub clean_after : {A : Type 0} → Result A × S → (S → Result (Unit {0}) × S) → Result A × S
  clean_after (r, s) clean = keep_outcome r (clean s)

  abbrev pub finally :
      {A : Type 0} → (S → Result A × S) → (S → Result (Unit {0}) × S) → S → Result A × S
  finally m clean s = clean_after (m s) clean

-- A property of the value, where there is one.
abbrev pub Ensures : {A : Type 0} → (A → Type 0) → Result A → Type 0
Ensures P (ok a) = P a
Ensures P (err e) = Unit

pub of_Ensures : {A : Type 0} (P : A → Type 0) (r : Result A) {a : A} → Ensures P r → r ≡ ok a → P a
of_Ensures P (ok b) h e = subst P (ok-injective e) h
of_Ensures P (err x) h e = cc

pub Ensures-both :
    {A : Type 0} (P Q : A → Type 0) (r : Result A)
    → Ensures P r
    → Ensures Q r
    → Ensures (λ a. P a × Q a) r
Ensures-both P Q (ok a) h k = (h, k)
Ensures-both P Q (err e) h k = tt

pub Ensures-weaken :
    {A : Type 0} (P Q : A → Type 0) (r : Result A)
    → Ensures P r
    → ((a : A) → P a → Q a)
    → Ensures Q r
Ensures-weaken P Q (ok a) h k = k a h
Ensures-weaken P Q (err e) h k = tt

module _ {S : Type 0} where
  -- Whatever the state is, the step's value has the property, if it returns one.
  abbrev pub Returns : {A : Type 0} → (S → Result A × S) → (A → Type 0) → Type 0
  Returns m P = (s : S) → Ensures P (m s).0

  bind_ended-Ensures :
      {A B : Type 0} (P : A → Type 0) (Q : B → Type 0) (f : A → S → Result B × S) (r : Result A)
      (s : S)
      → Ensures P r
      → ((a : A) → P a → Returns (f a) Q)
      → Ensures Q (bind_ended (r, s) f).0
  bind_ended-Ensures P Q f (ok a) s h k = k a h s
  bind_ended-Ensures P Q f (err e) s h k = tt

  pub bind-Returns :
      {A B : Type 0} (P : A → Type 0) (Q : B → Type 0) (m : S → Result A × S)
      (f : A → S → Result B × S)
      → Returns m P
      → ((a : A) → P a → Returns (f a) Q)
      → Returns (m >>= f) Q
  bind-Returns P Q m f h k s = bind_ended-Ensures P Q f (m s).0 (m s).1 (h s) k

  bind_ended_any :
      {A B : Type 0} (Q : B → Type 0) (f : A → S → Result B × S) (r : Result A) (s : S)
      → ((a : A) → Returns (f a) Q)
      → Ensures Q (bind_ended (r, s) f).0
  bind_ended_any Q f (ok a) s k = k a s
  bind_ended_any Q f (err e) s k = tt

  -- The same where nothing is known of the first value.
  pub then-Returns :
      {A B : Type 0} (Q : B → Type 0) (m : S → Result A × S) (f : A → S → Result B × S)
      → ((a : A) → Returns (f a) Q)
      → Returns (m >>= f) Q
  then-Returns Q m f k s = bind_ended_any Q f (m s).0 (m s).1 k

  -- A property of the value together with the state that is left, or one of the exception.
  abbrev pub Ends : {A : Type 0} → (Exc → Type 0) → (A → S → Type 0) → Result A × S → Type 0
  Ends F Q (ok a, s) = Q a s
  Ends F Q (err e, s) = F e

  pub Ends-bind_ended :
      {A B : Type 0} (F : Exc → Type 0) (P : A → S → Type 0) (Q : B → S → Type 0)
      (step : Result A × S) (f : A → S → Result B × S)
      → Ends F P step
      → ((a : A) (s : S) → P a s → Ends F Q (f a s))
      → Ends F Q (bind_ended step f)
  Ends-bind_ended F P Q (ok a, s) f h k = k a s h
  Ends-bind_ended F P Q (err e, s) f h k = h

  pub of_Ends :
      {A : Type 0} (F : Exc → Type 0) (Q : A → S → Type 0) (r : Result A × S) {a : A}
      → Ends F Q r
      → r.0 ≡ ok a
      → Q a r.1
  of_Ends F Q (ok b, s) h e = subst (λ a. Q a s) (ok-injective e) h
  of_Ends F Q (err x, s) h e = cc

  -- A property of the value and the state, where nothing is known of exceptions.
  abbrev pub Leaves : {A : Type 0} → (A → S → Type 0) → Result A × S → Type 0
  Leaves = Ends (λ e. Unit)

  -- The same where nothing is known of the first value.
  pub Leaves-then :
      {A B : Type 0} (Q : B → S → Type 0) (step : Result A × S) (f : A → S → Result B × S)
      → ((a : A) (s : S) → Leaves Q (f a s))
      → Leaves Q (bind_ended step f)
  Leaves-then Q (ok a, s) f k = k a s
  Leaves-then Q (err e, s) f k = tt

  pub Ends-weaken :
      {A : Type 0} (F : Exc → Type 0) (P Q : A → S → Type 0) (r : Result A × S)
      → Ends F P r
      → ((a : A) (s : S) → P a s → Q a s)
      → Ends F Q r
  Ends-weaken F P Q (ok a, s) h k = k a s h
  Ends-weaken F P Q (err e, s) h k = h
