-- ===== src/Splitting.antt =====
-- Laws of the text functions that the parsers rest on: `split`, `split(sep)` and `strip`.
pub mod Words
pub mod Decimal
use problem_verifier.Prelude.{
  ℕ, Bool, true, false, ◌≡◌, refl, ◌∙◌, ap, ◌||◌, List, [], ◌∷◌, ◌++◌, Str, arith, All, contains,
  ◌==◌, nat_eq, if◌then◌else◌, split_on, extend_first, lstrip, rstrip, strip, is_space,
}

-- No character of the text is `c`; none is white space.
abbrev pub Lacks : ℕ → Str → Type 0
Lacks c = All (λ d. (d == c) ≡ false)

abbrev pub IsSolid : Str → Type 0
IsSolid = All (λ d. is_space d ≡ false)

pub split_on_one : (sep : ℕ) (text : Str) → Lacks sep text → split_on sep text ≡ text ∷ []
unfolding split_on
split_on_one sep [] h = refl
split_on_one sep (c ∷ text) h = ground (arith, split_on_one sep text h.1)

pub split_on_two :
    (sep : ℕ) (a b : Str) → Lacks sep a → Lacks sep b → split_on sep (a ++ sep ∷ b) ≡ a ∷ b ∷ []
unfolding split_on
split_on_two sep [] b ha hb = ground (arith, split_on_one sep b hb)
split_on_two sep (c ∷ a) b ha hb = ground (arith, split_on_two sep a b ha.1 hb)

pub lstrip-solid : (text : Str) → IsSolid text → lstrip is_space text ≡ text
unfolding lstrip
lstrip-solid [] h = refl
lstrip-solid (c ∷ text) h = rw h.0

rstrip-solid : (text : Str) → IsSolid text → rstrip is_space text ≡ text
unfolding rstrip
rstrip-solid [] h = refl
rstrip-solid (c ∷ []) h = rw h.0
rstrip-solid (c ∷ d ∷ text) h = ground (arith, rstrip-solid (d ∷ text) h.1)

pub strip-solid : (text : Str) → IsSolid text → strip text ≡ text
unfolding strip
strip-solid text h = rw (lstrip-solid text h) (rstrip-solid text h)

pub contains-append : (c : ℕ) (a b : Str) → contains c (a ++ b) ≡ (contains c a || contains c b)
contains-append c [] b = refl
contains-append c (d ∷ a) b = ground (arith, contains-append c a b)

pub contains-Lacks : (c : ℕ) (a : Str) → Lacks c a → contains c a ≡ false
contains-Lacks c [] h = refl
contains-Lacks c (d ∷ a) h = ground (arith, contains-Lacks c a h.1)
