-- ===== src/Json.antt =====
-- JSON values as `json.loads` returns them, and what the program asks of them.
use problem_verifier.Prelude.{
  ℕ, Bool, Option, none, some, Str, if◌then◌else◌, ◌==◌, nat_eq, list_eq, ℤ, pos, int_eq,
}
use problem_verifier.Prelude.Result.{Result, ok, err, key_error, type_error}

mutual
  pub data Json (F : Type 0) : Type 0 where
    null : Json F
    bool : Bool → Json F
    int : ℤ → Json F
    float : F → Json F
    text : Str → Json F
    array : Items F → Json F
    object : Members F → Json F

  pub data Items (F : Type 0) : Type 0 where
    nil : Items F
    cons : Json F → Items F → Items F

  pub data Members (F : Type 0) : Type 0 where
    end : Members F
    member : Str → Json F → Members F → Members F

module _ {F : Type 0} where
  -- The value of a key; of a key that stands twice, the last one.
  unfoldable pub find_member : Str → Members F → Option (Json F)
  find_member key end = none
  find_member key (member k value more) = elim (find_member key more) [
    | some later ↦ some later
    | none ↦ if k == key then some value else none
  ]

  abbrev or_key_error : Option (Json F) → Result (Json F)
  or_key_error none = err key_error
  or_key_error (some value) = ok value

  -- `value[key]`
  unfoldable pub get_item : Str → Json F → Result (Json F)
  get_item key (object members) = or_key_error (find_member key members)
  get_item key null = err type_error
  get_item key (bool b) = err type_error
  get_item key (int n) = err type_error
  get_item key (float x) = err type_error
  get_item key (text s) = err type_error
  get_item key (array items) = err type_error

  -- The value where it has the type that the program goes on to use it at. (Python would not look.)
  unfoldable pub as_bool : Json F → Result Bool
  as_bool (bool b) = ok b
  as_bool _ = err type_error

  unfoldable pub as_int : Json F → Result ℤ
  as_int (int n) = ok n
  as_int _ = err type_error

  unfoldable pub as_nat : Json F → Result ℕ
  as_nat (int (pos n)) = ok n
  as_nat _ = err type_error

  unfoldable pub as_float : Json F → Result F
  as_float (float x) = ok x
  as_float _ = err type_error
