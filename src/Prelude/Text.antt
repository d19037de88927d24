-- ===== src/Prelude/Text.antt =====
-- Python's `str`: a list of code points. (The native `String` has no lone surrogates, which
-- `errors="surrogateescape"` makes.) The functions of `str` that the program calls.
use Prim.Native.Nat.{ℕ, zero, suc, ◌+◌, ◌/◌, ◌%◌}
use Prim.Native.Char.{code}
use Prim.Native.String.{String}
use mathlib.Core.Bool.{Bool, ◌&&◌, ◌||◌}
use mathlib.Core.List.{List, [], ◌∷◌, ◌++◌, reverse}
use problem_verifier.Prelude.Tests.{if◌then◌else◌, leb, ◌==◌, nat_eq, contains}

abbrev pub Str : Type 0
Str = List ℕ

-- `bytes`: each number is below 256.
abbrev pub Bytes : Type 0
Bytes = List ℕ

-- A text literal.
abbrev pub codes : String → Str
codes String.[] = []
codes (String.◌∷◌ c s) = code c ∷ codes s

-- `str.isspace` of one character: what `split()` and `strip()` take away.
unfoldable pub is_space : ℕ → Bool
is_space c =
    (leb 9 c && leb c 13)
    || (leb 28 c && leb c 32)
    || (leb 0x2000 c && leb c 0x200a)
    || contains c (0x85 ∷ 0xa0 ∷ 0x1680 ∷ 0x2028 ∷ 0x2029 ∷ 0x202f ∷ 0x205f ∷ 0x3000 ∷ [])

-- `text.split()`: the word that is being read waits in `word`, turned round.
abbrev pub flush : Str → List Str
flush [] = []
flush (c ∷ word) = reverse (c ∷ word) ∷ []

unfoldable pub split_words : Str → Str → List Str
split_words word [] = flush word
split_words word (c ∷ text) =
    let go_on = split_words (c ∷ word) text in
    let cut = flush word ++ split_words [] text in if is_space c then cut else go_on

unfoldable pub split : Str → List Str
unfolding split_words is_space
split text = split_words [] text

-- `text.split(sep)` for a separator of one character; the result is never empty.
abbrev pub extend_first : ℕ → List Str → List Str
extend_first c [] = (c ∷ []) ∷ []
extend_first c (part ∷ parts) = (c ∷ part) ∷ parts

unfoldable pub split_on : ℕ → Str → List Str
split_on sep [] = [] ∷ []
split_on sep (c ∷ text) =
    let rest = split_on sep text in if c == sep then [] ∷ rest else extend_first c rest

-- `text.split(sep, 1)` where the separator occurs: the text before its first place and the one after.
unfoldable pub cut_at : ℕ → Str → Str × Str
cut_at sep [] = ([], [])
cut_at sep (c ∷ text) =
    let (before, after) = cut_at sep text in if c == sep then ([], text) else (c ∷ before, after)

-- `text.lstrip(chars)`, `text.rstrip(chars)` and `text.strip()`, for a test on characters.
unfoldable pub lstrip : (ℕ → Bool) → Str → Str
lstrip drops [] = []
lstrip drops (c ∷ text) = let rest = lstrip drops text in if drops c then rest else c ∷ text

unfoldable pub rstrip : (ℕ → Bool) → Str → Str
rstrip drops [] = []
rstrip drops (c ∷ text) = elim (rstrip drops text) [
  | [] ↦ if drops c then [] else c ∷ []
  | d ∷ rest ↦ c ∷ d ∷ rest
]

unfoldable pub strip : Str → Str
unfolding lstrip rstrip is_space
strip text = rstrip is_space (lstrip is_space text)

-- `sep.join(parts)`
unfoldable pub join : Str → List Str → Str
join sep [] = []
join sep (part ∷ []) = part
join sep (part ∷ more ∷ parts) = part ++ (sep ++ join sep (more ∷ parts))

-- `str(n)` in decimal. A number has fewer digits than the fuel `n + 1`.
unfoldable pub digits_onto : ℕ → ℕ → Str → Str
digits_onto zero n out = out
digits_onto (suc fuel) n out =
    let out' = (b'0' + n % 10) ∷ out in
    let more = digits_onto fuel (n / 10) out' in if n / 10 == 0 then out' else more

unfoldable pub str_of_nat : ℕ → Str
unfolding digits_onto nat_eq
str_of_nat n = digits_onto (suc n) n []
