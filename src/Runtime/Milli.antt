-- ===== src/Runtime/Milli.antt =====
-- A small runtime on which the model can be run: numbers are thousandths, texts are ASCII, and
-- `json.loads` is given as a function.
use problem_verifier.Prelude.{
  ℕ, zero, suc, ◌+◌, ◌*◌, ◌/◌, ◌%◌, ◌<◌, true, false, ◌&&◌, ◌≡◌, ◌≢◌, refl, ◌∙◌, ◌⊎◌, inl, inr,
  List, [], ◌∷◌, ◌++◌, map, Option, none, some, Str, Bytes, codes, arith, nat_eq, ◌==◌, Bool-cases,
  split_on, str_of_nat, digits_onto, join, ap, list_eq, take,
}
use problem_verifier.Splitting.Decimal.{str_of_nat-ne-nil}
use problem_verifier.Json.{Json}
use problem_verifier.Runtime.{Runtime}
use problem_verifier.Runtime.Laws.{IsLawful}
use problem_verifier.Cpu.Lists.{ReadsDecimals}
use problem_verifier.Runtime.Thousandths.{
  Number, not_a_number, infinite, milli, read_onto, number_of_parts, read_nat, decimal_number,
  whole_number, scaled,
}
use problem_verifier.Runtime.Thousandths

abbrev pub MilliRuntime : (Bytes → Option (Json Number)) → Runtime
MilliRuntime json_of = record {
  Float = Number;
  of_nat = Thousandths.of_nat;
  add = Thousandths.add;
  sub = Thousandths.sub;
  mul = Thousandths.mul;
  div = Thousandths.div;
  abs = λ x. x;
  lt = Thousandths.lt;
  le = Thousandths.le;
  eq = λ x y. Thousandths.le x y && Thousandths.le y x;
  is_nan = Thousandths.is_nan;
  is_inf = Thousandths.is_inf;
  float_of = Thousandths.number_of;
  nat_of = Thousandths.read_nat;
  show = Thousandths.show_number;
  fixed3 = Thousandths.show_number;
  round6 = λ x. x;
  truncate = Thousandths.truncate;
  is_digit = Thousandths.is_digit;
  lower = map Thousandths.lower_char;
  repr = Thousandths.quoted;
  decode_escape = λ data'. data';
  decode_replace = λ data'. data';
  decode_strict = some;
  dumps = λ texts. b'[' ∷ (join (codes ", ") (map Thousandths.quoted texts) ++ (b']' ∷ []));
  fnmatch = λ text pattern'. text == pattern';
  json_of = json_of;
  is_true = Thousandths.is_true;
}

le_refl : (x : Number) → Thousandths.is_nan x ≡ false → Thousandths.le x x ≡ true
le_refl not_a_number h = ground arith
le_refl infinite h = refl
le_refl (milli a) h = ground arith

le_trans :
    (x y z : Number)
    → Thousandths.le x y ≡ true
    → Thousandths.le y z ≡ true
    → Thousandths.le x z ≡ true
le_trans not_a_number y z h k = h
le_trans infinite not_a_number z h k = ground arith
le_trans infinite infinite z h k = k
le_trans infinite (milli b) z h k = ground arith
le_trans (milli a) not_a_number z h k = ground arith
le_trans (milli a) infinite not_a_number h k = k
le_trans (milli a) infinite infinite h k = refl
le_trans (milli a) infinite (milli c) h k = ground arith
le_trans (milli a) (milli b) not_a_number h k = k
le_trans (milli a) (milli b) infinite h k = refl
le_trans (milli a) (milli b) (milli c) h k = ground arith

le_total :
    (x y : Number)
    → Thousandths.is_nan x ≡ false
    → Thousandths.is_nan y ≡ false
    → (Thousandths.le x y ≡ true) ⊎ (Thousandths.lt y x ≡ true)
le_total not_a_number y h k = ground arith
le_total infinite not_a_number h k = ground arith
le_total infinite infinite h k = inl refl
le_total infinite (milli b) h k = inr refl
le_total (milli a) not_a_number h k = ground arith
le_total (milli a) infinite h k = inl refl
le_total (milli a) (milli b) h k = ground arith

lt→le : (x y : Number) → Thousandths.lt x y ≡ true → Thousandths.le x y ≡ true
lt→le not_a_number y h = h
lt→le infinite y h = ground arith
lt→le (milli a) not_a_number h = h
lt→le (milli a) infinite h = refl
lt→le (milli a) (milli b) h = ground arith

nan_not-lt :
    (x y : Number)
    → Thousandths.is_nan x ≡ true
    → (Thousandths.lt x y ≡ false) × (Thousandths.lt y x ≡ false)
nan_not-lt not_a_number not_a_number h = (refl, refl)
nan_not-lt not_a_number infinite h = (refl, refl)
nan_not-lt not_a_number (milli b) h = (refl, refl)
nan_not-lt infinite y h = ground arith
nan_not-lt (milli a) y h = ground arith

nan_not-le :
    (x y : Number)
    → Thousandths.is_nan x ≡ true
    → (Thousandths.le x y ≡ false) × (Thousandths.le y x ≡ false)
nan_not-le not_a_number not_a_number h = (refl, refl)
nan_not-le not_a_number infinite h = (refl, refl)
nan_not-le not_a_number (milli b) h = (refl, refl)
nan_not-le infinite y h = ground arith
nan_not-le (milli a) y h = ground arith

-- No number of this runtime is negative.
le_zero : (x : Number) → Thousandths.is_nan x ≡ false → Thousandths.le (milli 0) x ≡ true
le_zero not_a_number h = ground arith
le_zero infinite h = refl
le_zero (milli a) h = ground arith

le-add :
    (x y : Number)
    → Thousandths.lt (milli 0) x ≡ true
    → Thousandths.le (milli 0) y ≡ true
    → Thousandths.le x (Thousandths.add x y) ≡ true
le-add not_a_number y h k = h
le-add infinite y h k = ground arith
le-add (milli a) not_a_number h k = k
le-add (milli a) infinite h k = refl
le-add (milli a) (milli b) h k = ground arith

mul_nonneg :
    (x y : Number)
    → Thousandths.lt (milli 0) x ≡ true
    → Thousandths.is_inf x ≡ false
    → Thousandths.le (milli 0) y ≡ true
    → Thousandths.le (milli 0) (Thousandths.mul x y) ≡ true
mul_nonneg not_a_number y h f k = h
mul_nonneg infinite y h f k = ground arith
mul_nonneg (milli a) not_a_number h f k = k
mul_nonneg (milli a) infinite h f k = ground arith
mul_nonneg (milli a) (milli b) h f k = ground arith

div_hundred_nonneg :
    (x : Number)
    → Thousandths.le (milli 0) x ≡ true
    → Thousandths.le (milli 0) (Thousandths.div x (milli 100000)) ≡ true
div_hundred_nonneg not_a_number h = h
div_hundred_nonneg infinite h = refl
div_hundred_nonneg (milli a) h = ground arith

decimal-not-nan :
    (fraction : Str) (n m : Option ℕ) {x : Number}
    → decimal_number fraction n m ≡ some x
    → Thousandths.le (milli 0) x ≡ true
decimal-not-nan fraction none m e = cc
decimal-not-nan fraction (some n) none e = cc
decimal-not-nan fraction (some n) (some m) e = ground arith

whole-not-nan :
    (n : Option ℕ) {x : Number} → whole_number n ≡ some x → Thousandths.le (milli 0) x ≡ true
whole-not-nan none e = cc
whole-not-nan (some n) e = ground arith

parts-not-nan :
    (parts : List Str) {x : Number}
    → number_of_parts parts ≡ some x
    → Thousandths.le (milli 0) x ≡ true
parts-not-nan [] e = cc
parts-not-nan (whole ∷ []) e = whole-not-nan (read_nat whole) e
parts-not-nan (whole ∷ fraction ∷ []) e =
    decimal-not-nan fraction (read_nat whole) (read_nat (take 3 fraction)) e
parts-not-nan (whole ∷ fraction ∷ more ∷ parts) e = cc

pub MilliRuntime-IsLawful :
    (json_of : Bytes → Option (Json Number)) → IsLawful (MilliRuntime json_of)
MilliRuntime-IsLawful json_of = record {
  le_refl = le_refl;
  le_trans = le_trans;
  le_total = le_total;
  lt→le = lt→le;
  nan_not-lt = nan_not-lt;
  nan_not-le = nan_not-le;
  eq_refl = λ x h. rw (le_refl x h) refl;
  not-nan_of_nat = λ n. refl;
  le-add = le-add;
  mul_nonneg = mul_nonneg;
  div_hundred_nonneg = div_hundred_nonneg;
  literal_nonneg = λ text digits e. parts-not-nan (split_on b'.' text) e;
}

read_onto-digit :
    (n d : ℕ) (out : Str) → d < 10 → read_onto n ((48 + d) ∷ out) ≡ read_onto (n * 10 + d) out
read_onto-digit n d out h = ground arith

read_onto-digits_onto :
    (fuel n : ℕ) (out : Str) → n < fuel → read_onto 0 (digits_onto fuel n out) ≡ read_onto n out
unfolding digits_onto
read_onto-digits_onto zero n out h = ground arith
read_onto-digits_onto (suc fuel) n out h =
    let out' = (48 + n % 10) ∷ out in
    let whole : n / 10 * 10 + n % 10 ≡ n = omega arith in
    elim (Bool-cases (n / 10 == 0)) [
      | inl e ↦
          let last : 0 * 10 + n % 10 ≡ n = ground arith in
          rw e (read_onto-digit 0 (n % 10) out (omega arith) ∙ ap (λ k. read_onto k out) last)
      | inr e ↦ rw e (
          read_onto-digits_onto fuel (n / 10) out' (ground arith)
          ∙ read_onto-digit (n / 10) (n % 10) out (omega arith)
          ∙ ap (λ k. read_onto k out) whole)
    ]

read_nat-read_onto : (text : Str) → text ≢ [] → read_nat text ≡ read_onto 0 text
read_nat-read_onto [] h = absurd (h refl)
read_nat-read_onto (c ∷ text) h = refl

pub MilliRuntime-ReadsDecimals :
    (json_of : Bytes → Option (Json Number)) → ReadsDecimals (MilliRuntime json_of)
unfolding str_of_nat
MilliRuntime-ReadsDecimals json_of n =
    read_nat-read_onto (str_of_nat n) (str_of_nat-ne-nil n)
    ∙ read_onto-digits_onto (suc n) n [] (omega arith)
