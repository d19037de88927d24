-- ===== src/Prelude/Result.antt =====
-- Python's exceptions as values.
use mathlib.Core.Path.{◌≡◌, refl}
use mathlib.Core.Logic.{◌⊎◌, inl, inr}
use mathlib.Core.Bool.{Bool, true, false}
use problem_verifier.Prelude.Text.{Str}

-- The exceptions that the program raises or catches. The first seven are its own, with their text.
pub data Exc : Type 0 where
  compare_flag_error overshoot_spec_error problem_config_error test_data_error : Str → Exc
  cpu_error validator_error sandbox_error : Str → Exc
  value_error key_error type_error index_error assertion_error : Exc
  timeout_expired file_not_found called_process_error os_error : Exc
  zero_division_error : Exc

-- What a call returns, or the exception that it raises.
pub data Result {ℓ} (Value : Type ℓ) : Type ℓ where
  ok : Value → Result Value
  err : Exc → Result Value

abbrev pub is_ok {ℓ} : {A : Type ℓ} → Result A → Bool
is_ok (ok value) = true
is_ok (err raised) = false

-- The rest of a body behind a call: an exception leaves it out.
infixl 5 ◌>>=◌ ◌>>◌
abbrev pub ◌>>=◌ {ℓ κ} : {S : Type ℓ} {T : Type κ} → Result S → (S → Result T) → Result T
ok value >>= rest = rest value
err raised >>= rest = err raised

abbrev pub ◌>>◌ {ℓ} : {T : Type ℓ} → Result (Unit {0}) → Result T → Result T
step >> rest = step >>= λ done. rest

-- `if test: raise e`
abbrev pub raise_if : Bool → Exc → Result (Unit {0})
raise_if true raised = err raised
raise_if false raised = ok tt

pub ok-injective {ℓ} : {A : Type ℓ} {x y : A} → ok x ≡ ok y → x ≡ y
ok-injective same = cc

-- How a body of two steps can have returned, and how it can have raised an exception.
pub >>=-eq-ok {ℓ κ} :
    {S : Type ℓ} {T : Type κ} (step : Result S) (rest : S → Result T) {y : T}
    → (step >>= rest) ≡ ok y
    → (x : S) × (step ≡ ok x) × (rest x ≡ ok y)
>>=-eq-ok (ok value) rest returned = (value, refl, returned)
>>=-eq-ok (err raised) rest returned = cc

pub >>=-eq-err {ℓ κ} :
    {S : Type ℓ} {T : Type κ} (step : Result S) (rest : S → Result T) {e : Exc}
    → (step >>= rest) ≡ err e
    → (step ≡ err e) ⊎ ((x : S) × (step ≡ ok x) × (rest x ≡ err e))
>>=-eq-err (ok value) rest failed = inr (value, refl, failed)
>>=-eq-err (err raised) rest failed = inl (cc)

pub ok_of-is_ok {ℓ} : {A : Type ℓ} (m : Result A) → is_ok m ≡ true → (value : A) × (m ≡ ok value)
ok_of-is_ok (ok value) h = (value, refl)
ok_of-is_ok (err raised) h = cc
