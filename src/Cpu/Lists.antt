-- ===== src/Cpu/Lists.antt =====
-- `_parse_cpu_list` against the lists that the kernel prints: numbers and ranges between commas.
use problem_verifier.Prelude.{
  ℕ, zero, suc, ◌+◌, ◌-◌, Bool, false, ◌≡◌, refl, ◌≢◌, ◌∙◌, ◌&&◌, ◌||◌, List, [], ◌∷◌, ◌++◌, Str,
  arith, All, All-append, some, ◌==◌, nat_eq, list_eq, str_of_nat, join, is_space, contains, map,
  leb,
}
use problem_verifier.Prelude.Result.{ok}
use problem_verifier.Splitting.{Lacks, IsSolid, strip-solid, contains-append, contains-Lacks}
use problem_verifier.Splitting.Decimal.{
  str_of_nat-digits, str_of_nat-ne-nil, Lacks-of_digits, IsSolid-of_digits, split_on-join,
  cut_at-append,
}
use problem_verifier.Sorting.{sort_by, IsSorted, sort_by-IsSorted, leb-IsOrder, contains-sort_by}
use problem_verifier.Runtime.{Runtime}
use problem_verifier.Cpu.{
  range_from, range_incl, range_end, parse_range, parse_part, parse_parts, parse_cpu_list,
}

-- A number, or a range of numbers with both its ends.
pub data Item : Type 0 where
  one : ℕ → Item
  span : ℕ → ℕ → Item

pub render_item : Item → Str
render_item (one cpu) = str_of_nat cpu
render_item (span lo hi) = str_of_nat lo ++ b'-' ∷ str_of_nat hi

pub render_list : List Item → Str
render_list items = join (b',' ∷ []) (map render_item items)

abbrev pub item_covers : ℕ → Item → Bool
item_covers c (one cpu) = c == cpu
item_covers c (span lo hi) = leb lo c && leb c hi

-- The number is listed, or lies in a range that is.
abbrev pub covers : ℕ → List Item → Bool
covers c [] = false
covers c (item ∷ items) = item_covers c item || covers c items

contains-range_from :
    (c lo count : ℕ) → contains c (range_from lo count) ≡ (leb lo c && leb (c + 1) (lo + count))
unfolding range_from
contains-range_from c lo zero = ground arith
contains-range_from c lo (suc count) = ground (arith, contains-range_from c (lo + 1) count)

contains-range_incl : (c lo hi : ℕ) → contains c (range_incl lo (hi + 1)) ≡ (leb lo c && leb c hi)
unfolding range_incl
contains-range_incl c lo hi = ground (arith, contains-range_from c lo (hi + 1 - lo))

-- `int` reads back what `str` writes.
abbrev pub ReadsDecimals : Runtime → Type 0
ReadsDecimals R = (n : ℕ) → R.nat_of (str_of_nat n) ≡ some n

not-minus : (n : ℕ) → Lacks b'-' (str_of_nat n)
not-minus n = Lacks-of_digits b'-' (str_of_nat n) (omega arith) (str_of_nat-digits n)

no_comma : (n : ℕ) → Lacks b',' (str_of_nat n)
no_comma n = Lacks-of_digits b',' (str_of_nat n) (omega arith) (str_of_nat-digits n)

minus_not-space : is_space b'-' ≡ false
unfolding is_space nat_eq
minus_not-space = refl

comma_not-space : is_space b',' ≡ false
unfolding is_space nat_eq
comma_not-space = refl

module _ (R : Runtime) (D : ReadsDecimals R) where
  range_end_digits :
      (text : Str) (n : ℕ)
      → text ≢ []
      → Lacks b'-' text
      → R.nat_of text ≡ some n
      → range_end R text ≡ ok (n + 1)
  unfolding range_end
  range_end_digits [] n e l h = absurd (e refl)
  range_end_digits (c ∷ text) n e l h = rw (l.0, h)

  parse_range_lem :
      (lo hi : ℕ) → parse_range R (str_of_nat lo, str_of_nat hi) ≡ ok (range_incl lo (hi + 1))
  unfolding parse_range
  parse_range_lem lo hi = rw (
    D lo,
    strip-solid (str_of_nat hi) (IsSolid-of_digits (str_of_nat hi) (str_of_nat-digits hi)),
    range_end_digits (str_of_nat hi) hi (str_of_nat-ne-nil hi) (not-minus hi) (D hi),
  )

  abbrev Covered : Item → List ℕ → Type 0
  Covered item values = (c : ℕ) → contains c values ≡ item_covers c item

  parse_part_lem :
      (item : Item)
      → (values : List ℕ) × (parse_part R (render_item item) ≡ ok values) × Covered item values
  unfolding parse_part render_item
  parse_part_lem (one cpu) = (
    cpu ∷ [],
    ground
        (arith, str_of_nat-ne-nil cpu, contains-Lacks b'-' (str_of_nat cpu) (not-minus cpu), D cpu),
    λ c. ground arith,
  )
  parse_part_lem (span lo hi) = (
    range_incl lo (hi + 1),
    ground (
      arith,
      str_of_nat-ne-nil lo,
      contains-append b'-' (str_of_nat lo) (b'-' ∷ str_of_nat hi),
      cut_at-append b'-' (str_of_nat lo) (str_of_nat hi) (not-minus lo),
      parse_range_lem lo hi,
    ),
    λ c. contains-range_incl c lo hi,
  )

  parse_parts_lem :
      (items : List Item)
      → (values : List ℕ) × (parse_parts R (map render_item items) ≡ ok values)
        × ((c : ℕ) → contains c values ≡ covers c items)
  unfolding parse_parts
  parse_parts_lem [] = ([], refl, λ c. refl)
  parse_parts_lem (item ∷ items) =
      let (first, e, has) = parse_part_lem item in
      let (rest, f, have) = parse_parts_lem items in
      (first ++ rest, rw (e, f), λ c. contains-append c first rest ∙ ground (arith, has c, have c))

render_item-Lacks : (item : Item) → Lacks b',' (render_item item)
unfolding render_item
render_item-Lacks (one cpu) = no_comma cpu
render_item-Lacks (span lo hi) =
    All-append (λ d. (d == b',') ≡ false) (str_of_nat lo) (b'-' ∷ str_of_nat hi) (no_comma lo)
      (ground arith, no_comma hi)

render_item-IsSolid : (item : Item) → IsSolid (render_item item)
unfolding render_item
render_item-IsSolid (one cpu) = IsSolid-of_digits (str_of_nat cpu) (str_of_nat-digits cpu)
render_item-IsSolid (span lo hi) =
    All-append (λ d. is_space d ≡ false) (str_of_nat lo) (b'-' ∷ str_of_nat hi)
      (IsSolid-of_digits (str_of_nat lo) (str_of_nat-digits lo))
      (minus_not-space, IsSolid-of_digits (str_of_nat hi) (str_of_nat-digits hi))

render_list-IsSolid : (items : List Item) → IsSolid (render_list items)
unfolding render_list join
render_list-IsSolid [] = tt
render_list-IsSolid (item ∷ []) = render_item-IsSolid item
render_list-IsSolid (item ∷ next ∷ items) =
    All-append (λ d. is_space d ≡ false) (render_item item)
      (b',' ∷ join (b',' ∷ []) (map render_item (next ∷ items))) (render_item-IsSolid item)
      (comma_not-space, render_list-IsSolid (next ∷ items))

All-lack : (items : List Item) → All (Lacks b',') (map render_item items)
All-lack [] = tt
All-lack (item ∷ items) = (render_item-Lacks item, All-lack items)

-- What the kernel prints for a list of CPUs is read as those CPUs, in ascending order: a number is in
-- the result exactly if it is listed or lies in a range that is. (`int` must read back what `str`
-- writes.)
pub parse_cpu_list-render :
    (R : Runtime) (items : List Item)
    → ReadsDecimals R
    → items ≢ []
    → (values : List ℕ) × (parse_cpu_list R (render_list items) ≡ ok values)
      × IsSorted leb values
      × ((c : ℕ) → contains c values ≡ covers c items)
unfolding parse_cpu_list render_list
parse_cpu_list-render R [] D n = absurd (n refl)
parse_cpu_list-render R (item ∷ items) D n =
    let (values, e, has) = parse_parts_lem R D (item ∷ items) in
    (
      sort_by leb values,
      rw (
        strip-solid _ (render_list-IsSolid (item ∷ items)),
        split_on-join b',' (render_item item) (map render_item items) (All-lack (item ∷ items)),
        e,
      ),
      sort_by-IsSorted leb leb-IsOrder values,
      λ c. contains-sort_by leb c values ∙ has c,
    )
