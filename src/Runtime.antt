-- ===== src/Runtime.antt =====
-- What the program takes from Python that has no counterpart here: `float` with its arithmetic,
-- comparisons, parsing and formatting, and the Unicode tables behind `str.lower` and `\d`.
pub mod Laws
pub mod Milli
pub mod Thousandths
use problem_verifier.Prelude.{ℕ, Bool, Option, List, Str, Bytes}
use problem_verifier.Json.{Json}

pub record Runtime : Type 1 where
  pub Float : Type 0
  -- A literal of whole value, or `float(n)`.
  pub of_nat : ℕ → Float
  pub add : Float → Float → Float
  pub sub : Float → Float → Float
  pub mul : Float → Float → Float
  pub div : Float → Float → Float
  pub abs : Float → Float
  -- `x < y`, `x <= y`, `x == y`
  pub lt : Float → Float → Bool
  pub le : Float → Float → Bool
  pub eq : Float → Float → Bool
  pub is_nan : Float → Bool
  pub is_inf : Float → Bool
  -- `float(text)`; `none` is the `ValueError`.
  pub float_of : Str → Option Float
  -- `int(text)` of a text with no minus sign; `none` is the `ValueError`.
  pub nat_of : Str → Option ℕ
  -- `str(x)`
  pub show : Float → Str
  -- `f"{x:.3f}"`
  pub fixed3 : Float → Str
  -- `round(x, 6)`
  pub round6 : Float → Float
  -- `int(x)` of a float that is finite and not negative, towards zero
  pub truncate : Float → ℕ
  -- `\d` of `re` on one character
  pub is_digit : ℕ → Bool
  -- `text.lower()`
  pub lower : Str → Str
  -- `repr(text)`
  pub repr : Str → Str
  -- `data.decode("utf-8", errors=…)` with `surrogateescape` and with `replace`
  pub decode_escape : Bytes → Str
  pub decode_replace : Bytes → Str
  -- `data.decode("utf-8")`; `none` is the `UnicodeDecodeError`, a `ValueError`.
  pub decode_strict : Bytes → Option Str
  -- `json.dumps(texts)`
  pub dumps : List Str → Str
  -- `fnmatch.fnmatch(text, pattern)`
  pub fnmatch : Str → Str → Bool
  -- `json.loads(data)`; `none` is the `ValueError`.
  pub json_of : Bytes → Option (Json Float)
  -- `bool(x)` of a number: whether it is not 0
  pub is_true : Float → Bool
