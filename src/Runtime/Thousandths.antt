-- ===== src/Runtime/Thousandths.antt =====
-- Numbers for trying the model out: thousandths that are not negative, infinity and NaN, with their
-- decimal texts.
use problem_verifier.Prelude.{
  ℕ, ◌+◌, ◌-◌, ◌*◌, ◌/◌, ◌%◌, Bool, true, false, not, ◌&&◌, List, [], ◌∷◌, ◌++◌, Option, none, some,
  Str, codes, if◌then◌else◌, ltb, leb, nat_eq, ◌==◌, split_on, str_of_nat, list_eq, take,
}

pub data Number : Type 0 where
  not_a_number : Number
  infinite : Number
  milli : ℕ → Number

abbrev pub of_nat : ℕ → Number
of_nat n = milli (n * 1000)

abbrev pub add : Number → Number → Number
add not_a_number y = not_a_number
add infinite not_a_number = not_a_number
add infinite infinite = infinite
add infinite (milli b) = infinite
add (milli a) not_a_number = not_a_number
add (milli a) infinite = infinite
add (milli a) (milli b) = milli (a + b)

-- The distance: the sign of a difference is not kept.
abbrev pub sub : Number → Number → Number
sub not_a_number y = not_a_number
sub infinite not_a_number = not_a_number
sub infinite infinite = not_a_number
sub infinite (milli b) = infinite
sub (milli a) not_a_number = not_a_number
sub (milli a) infinite = infinite
sub (milli a) (milli b) = milli ((a - b) + (b - a))

abbrev pub mul : Number → Number → Number
mul not_a_number y = not_a_number
mul infinite not_a_number = not_a_number
mul infinite infinite = infinite
mul infinite (milli b) = if b == 0 then not_a_number else infinite
mul (milli a) not_a_number = not_a_number
mul (milli a) infinite = if a == 0 then not_a_number else infinite
mul (milli a) (milli b) = milli ((a * b) / 1000)

abbrev pub div : Number → Number → Number
div not_a_number y = not_a_number
div infinite not_a_number = not_a_number
div infinite infinite = not_a_number
div infinite (milli b) = infinite
div (milli a) not_a_number = not_a_number
div (milli a) infinite = milli 0
div (milli a) (milli b) = if b == 0 then infinite else milli ((a * 1000) / b)

abbrev pub lt : Number → Number → Bool
lt not_a_number y = false
lt infinite y = false
lt (milli a) not_a_number = false
lt (milli a) infinite = true
lt (milli a) (milli b) = ltb a b

abbrev pub le : Number → Number → Bool
le not_a_number y = false
le infinite not_a_number = false
le infinite infinite = true
le infinite (milli b) = false
le (milli a) not_a_number = false
le (milli a) infinite = true
le (milli a) (milli b) = leb a b

abbrev pub is_nan : Number → Bool
is_nan not_a_number = true
is_nan infinite = false
is_nan (milli a) = false

abbrev pub is_inf : Number → Bool
is_inf not_a_number = false
is_inf infinite = true
is_inf (milli a) = false

abbrev pub is_true : Number → Bool
is_true not_a_number = true
is_true infinite = true
is_true (milli a) = not (a == 0)

abbrev pub truncate : Number → ℕ
truncate not_a_number = 0
truncate infinite = 0
truncate (milli a) = a / 1000

abbrev pub is_digit : ℕ → Bool
is_digit c = leb b'0' c && leb c b'9'

-- The value of decimal digits, read after the number `acc`.
abbrev pub read_onto : ℕ → Str → Option ℕ
read_onto acc [] = some acc
read_onto acc (c ∷ text) =
    let rest = read_onto (acc * 10 + (c - 48)) text in if is_digit c then rest else none

abbrev pub read_nat : Str → Option ℕ
read_nat [] = none
read_nat (c ∷ text) = read_onto 0 (c ∷ text)

abbrev pub scaled : Str → ℕ → ℕ
scaled [] n = n * 1000
scaled (c ∷ []) n = n * 100
scaled (c ∷ d ∷ []) n = n * 10
scaled (c ∷ d ∷ e ∷ more) n = n

abbrev pub whole_number : Option ℕ → Option Number
whole_number none = none
whole_number (some n) = some (milli (n * 1000))

abbrev pub decimal_number : Str → Option ℕ → Option ℕ → Option Number
decimal_number fraction none m = none
decimal_number fraction (some n) none = none
decimal_number fraction (some n) (some m) = some (milli (n * 1000 + scaled fraction m))

-- At most three digits of a fraction are read.
abbrev pub number_of_parts : List Str → Option Number
number_of_parts [] = none
number_of_parts (whole ∷ []) = whole_number (read_nat whole)
number_of_parts (whole ∷ fraction ∷ []) =
    decimal_number fraction (read_nat whole) (read_nat (take 3 fraction))
number_of_parts (whole ∷ fraction ∷ more ∷ parts) = none

abbrev pub number_of : Str → Option Number
number_of text = number_of_parts (split_on b'.' text)

abbrev pub padded : ℕ → Str
padded n = (b'0' + n / 100) ∷ (b'0' + n / 10 % 10) ∷ (b'0' + n % 10) ∷ []

abbrev pub show_number : Number → Str
show_number not_a_number = codes "nan"
show_number infinite = codes "inf"
show_number (milli a) = str_of_nat (a / 1000) ++ (b'.' ∷ padded (a % 1000))

abbrev pub lower_char : ℕ → ℕ
lower_char c = if leb b'A' c && leb c b'Z' then c + 32 else c

abbrev pub quoted : Str → Str
quoted text = b'"' ∷ (text ++ (b'"' ∷ []))
