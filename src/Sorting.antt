-- ===== src/Sorting.antt =====
-- Python's `sorted` and `set` on lists of distinct or equal values: insertion sort by a Boolean order,
-- and what the callers need of it.
use problem_verifier.Prelude.{
  ℕ, Bool, true, false, ◌≡◌, refl, ◌∙◌, ◌⊎◌, inl, inr, ◌||◌, List, [], ◌∷◌, arith, if◌then◌else◌,
  Eq, ◌==◌, contains, Bool-cases, All, ltb, leb, nat_eq, list_eq,
}

module _ {ℓ} {A : Type ℓ} (le : A → A → Bool) where
  unfoldable pub insert_by : A → List A → List A
  insert_by x [] = x ∷ []
  insert_by x (y ∷ ys) = let rest = y ∷ insert_by x ys in if le x y then x ∷ y ∷ ys else rest

  unfoldable pub sort_by : List A → List A
  unfolding insert_by
  sort_by [] = []
  sort_by (x ∷ xs) = insert_by x (sort_by xs)

  abbrev pub IsBelow : A → List A → Type 0
  IsBelow x = All (λ y. le x y ≡ true)

  -- Each element is below all that follow it.
  abbrev pub IsSorted : List A → Type 0
  IsSorted [] = Unit
  IsSorted (x ∷ xs) = IsBelow x xs × IsSorted xs

  -- A Boolean order that is total and transitive.
  pub record IsOrder : Type ℓ where
    pub total : (x y : A) → (le x y ≡ true) ⊎ (le y x ≡ true)
    pub trans : (x y z : A) → le x y ≡ true → le y z ≡ true → le x z ≡ true

  module _ (O : IsOrder) where
    IsBelow-trans : (x y : A) (ys : List A) → le x y ≡ true → IsBelow y ys → IsBelow x ys
    IsBelow-trans x y [] h b = tt
    IsBelow-trans x y (z ∷ ys) h b = (O.trans x y z h b.0, IsBelow-trans x y ys h b.1)

    IsBelow-insert_by :
        (x y : A) (ys : List A) → le x y ≡ true → IsBelow x ys → IsBelow x (insert_by y ys)
    unfolding insert_by
    IsBelow-insert_by x y [] h b = (h, tt)
    IsBelow-insert_by x y (z ∷ ys) h b = ground (arith, IsBelow-insert_by x y ys h b.1)

    insert_by-IsSorted : (x : A) (ys : List A) → IsSorted ys → IsSorted (insert_by x ys)
    unfolding insert_by
    insert_by-IsSorted x [] s = (tt, tt)
    insert_by-IsSorted x (y ∷ ys) s = elim (Bool-cases (le x y)) [
      | inl h ↦ rw h ((h, IsBelow-trans x y ys h s.0), s)
      | inr h ↦
          let back : le y x ≡ true = ground (arith, O.total x y) in
          rw h (IsBelow-insert_by y x ys back s.0, insert_by-IsSorted x ys s.1)
    ]

    pub sort_by-IsSorted : (xs : List A) → IsSorted (sort_by xs)
    unfolding sort_by
    sort_by-IsSorted [] = tt
    sort_by-IsSorted (x ∷ xs) = insert_by-IsSorted x (sort_by xs) (sort_by-IsSorted xs)

  module _ ⦃e : Eq A⦄ where
    contains-insert_by :
        (a x : A) (ys : List A) → contains a (insert_by x ys) ≡ (a == x || contains a ys)
    unfolding insert_by
    contains-insert_by a x [] = refl
    contains-insert_by a x (y ∷ ys) = ground (arith, contains-insert_by a x ys)

    -- Sorting keeps what is in the list.
    pub contains-sort_by : (a : A) (xs : List A) → contains a (sort_by xs) ≡ contains a xs
    unfolding sort_by
    contains-sort_by a [] = refl
    contains-sort_by a (x ∷ xs) =
        contains-insert_by a x (sort_by xs) ∙ ground (arith, contains-sort_by a xs)

-- `set`: one of each.
unfoldable pub unique {ℓ} : {A : Type ℓ} ⦃e : Eq A⦄ → List A → List A
unique [] = []
unique (x ∷ xs) = let rest = unique xs in if contains x xs then rest else x ∷ rest

pub contains-unique {ℓ} :
    {A : Type ℓ} ⦃e : Eq A⦄ (a : A) (xs : List A) → contains a (unique xs) ≡ contains a xs
unfolding unique
contains-unique a [] = refl
contains-unique a (x ∷ xs) = ground (arith, contains-unique a xs)

-- The order of tuples of numbers.
unfoldable pub lex_le : List ℕ → List ℕ → Bool
lex_le [] ys = true
lex_le (x ∷ xs) [] = false
lex_le (x ∷ xs) (y ∷ ys) = let rest = lex_le xs ys in if x == y then rest else ltb x y

lex_le_total : (xs ys : List ℕ) → (lex_le xs ys ≡ true) ⊎ (lex_le ys xs ≡ true)
unfolding lex_le
lex_le_total [] ys = inl refl
lex_le_total (x ∷ xs) [] = inr refl
lex_le_total (x ∷ xs) (y ∷ ys) = ground (arith, lex_le_total xs ys)

lex_le_trans : (xs ys zs : List ℕ) → lex_le xs ys ≡ true → lex_le ys zs ≡ true → lex_le xs zs ≡ true
unfolding lex_le
lex_le_trans [] ys zs h k = refl
lex_le_trans (x ∷ xs) [] zs h k = cc
lex_le_trans (x ∷ xs) (y ∷ ys) [] h k = cc
lex_le_trans (x ∷ xs) (y ∷ ys) (z ∷ zs) h k = ground (arith, lex_le_trans xs ys zs)

pub lex_le-IsOrder : IsOrder lex_le
lex_le-IsOrder = record { total = lex_le_total; trans = lex_le_trans }

pub leb-IsOrder : IsOrder leb
leb-IsOrder = record { total = λ x y. ground arith; trans = λ x y z h k. ground arith }

-- No value is listed twice.
abbrev pub Distinct {ℓ} : {A : Type ℓ} ⦃e : Eq A⦄ → List A → Type 0
Distinct [] = Unit
Distinct (x ∷ xs) = (contains x xs ≡ false) × Distinct xs

pub unique-Distinct {ℓ} : {A : Type ℓ} ⦃e : Eq A⦄ (xs : List A) → Distinct (unique xs)
unfolding unique
unique-Distinct [] = tt
unique-Distinct (x ∷ xs) = ground (arith, unique-Distinct xs, contains-unique x xs)

module _ {ℓ} {A : Type ℓ} ⦃e : Eq A⦄ (le : A → A → Bool) where
  insert_by-Distinct :
      (x : A) (ys : List A) → contains x ys ≡ false → Distinct ys → Distinct (insert_by le x ys)
  unfolding insert_by
  insert_by-Distinct x [] n d = (n, d)
  insert_by-Distinct x (y ∷ ys) n d =
      ground (arith, insert_by-Distinct x ys, contains-insert_by le y x ys)

  pub sort_by-Distinct : (xs : List A) → Distinct xs → Distinct (sort_by le xs)
  unfolding sort_by
  sort_by-Distinct [] d = tt
  sort_by-Distinct (x ∷ xs) d =
      insert_by-Distinct x (sort_by le xs) (contains-sort_by le x xs ∙ d.0)
        (sort_by-Distinct xs d.1)
