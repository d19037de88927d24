-- ===== src/Splitting/Decimal.antt =====
-- The decimal text of a number: its characters, and texts joined and split again.
use problem_verifier.Prelude.{
  ℕ, zero, suc, ◌+◌, ◌%◌, ◌/◌, ◌≤◌, ◌<◌, false, ◌≡◌, ap, ◌≢◌, ◌∙◌, List, [], ◌∷◌, ◌++◌, Str, arith,
  All, nat_eq, str_of_nat, digits_onto, split_on, cut_at, join, is_space,
}
use problem_verifier.Splitting.{Lacks, IsSolid, split_on_one}

-- An ASCII digit.
abbrev pub IsAsciiDigit : ℕ → Type 0
IsAsciiDigit c = (48 ≤ c) × (c ≤ 57)

digits_onto-digits :
    (fuel n : ℕ) (out : Str) → All IsAsciiDigit out → All IsAsciiDigit (digits_onto fuel n out)
unfolding digits_onto
digits_onto-digits zero n out h = h
digits_onto-digits (suc fuel) n out h =
    ground (arith, digits_onto-digits fuel (n / 10) ((48 + n % 10) ∷ out))

digits_onto-ne-nil : (fuel n : ℕ) (c : ℕ) (out : Str) → digits_onto fuel n (c ∷ out) ≢ []
unfolding digits_onto
digits_onto-ne-nil zero n c out h = cc
digits_onto-ne-nil (suc fuel) n c out h =
    ground (arith, digits_onto-ne-nil fuel (n / 10) (48 + n % 10) (c ∷ out))

pub str_of_nat-digits : (n : ℕ) → All IsAsciiDigit (str_of_nat n)
unfolding str_of_nat
str_of_nat-digits n = digits_onto-digits (suc n) n [] tt

pub str_of_nat-ne-nil : (n : ℕ) → str_of_nat n ≢ []
unfolding str_of_nat
str_of_nat-ne-nil n h = ground (arith, digits_onto-ne-nil n (n / 10) (48 + n % 10) [])

pub Lacks-of_digits : (c : ℕ) (text : Str) → c < 48 → All IsAsciiDigit text → Lacks c text
Lacks-of_digits c [] h d = tt
Lacks-of_digits c (x ∷ text) h d = (ground arith, Lacks-of_digits c text h d.1)

not-space_of_digit : (c : ℕ) → 33 ≤ c → c ≤ 57 → is_space c ≡ false
unfolding is_space
not-space_of_digit c lo hi = ground arith

pub IsSolid-of_digits : (text : Str) → All IsAsciiDigit text → IsSolid text
IsSolid-of_digits [] d = tt
IsSolid-of_digits (x ∷ text) d =
    (not-space_of_digit x (omega arith) (omega arith), IsSolid-of_digits text d.1)

split_on-append :
    (sep : ℕ) (a text : Str) → Lacks sep a → split_on sep (a ++ sep ∷ text) ≡ a ∷ split_on sep text
unfolding split_on
split_on-append sep [] text h = ground arith
split_on-append sep (c ∷ a) text h = ground (arith, split_on-append sep a text h.1)

-- Joined parts that lack the separator are split into the parts.
pub split_on-join :
    (sep : ℕ) (part : Str) (parts : List Str)
    → All (Lacks sep) (part ∷ parts)
    → split_on sep (join (sep ∷ []) (part ∷ parts)) ≡ part ∷ parts
unfolding join
split_on-join sep part [] h = split_on_one sep part h.0
split_on-join sep part (next ∷ parts) h =
    split_on-append sep part (join (sep ∷ []) (next ∷ parts)) h.0
    ∙ ap (◌∷◌ part) (split_on-join sep next parts h.1)

pub cut_at-append : (sep : ℕ) (a b : Str) → Lacks sep a → cut_at sep (a ++ sep ∷ b) ≡ (a, b)
unfolding cut_at
cut_at-append sep [] b h = ground arith
cut_at-append sep (c ∷ a) b h = ground (arith, cut_at-append sep a b h.1)
