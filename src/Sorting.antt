-- ===== src/Sorting.antt =====
-- Stable sorting by an order, the `sort_by` of a `Vec`.
use spark_dashboard.Prelude.{
  ◌≡◌, refl, Bool, true, false, List, [], ◌∷◌, inl, inr, Bool-cases, filterb, ap, ◌∙◌,
  if◌then◌else◌,
}

module _ {ℓ} {A : Type ℓ} (le : A → A → Bool) where
  -- Before the first one that it is not above.
  unfoldable pub insert : A → List A → List A
  insert x [] = x ∷ []
  insert x (y ∷ l) = let rest = insert x l in if le x y then x ∷ y ∷ l else y ∷ rest

  unfoldable pub sort : List A → List A
  unfolding insert
  sort [] = []
  sort (x ∷ l) = insert x (sort l)

  abbrev pub IsBelow : A → List A → Type 0
  IsBelow x [] = Unit
  IsBelow x (y ∷ l) = le x y ≡ true

  -- Each item is at most the next one.
  abbrev pub IsSorted : List A → Type 0
  IsSorted [] = Unit
  IsSorted (x ∷ l) = IsBelow x l × IsSorted l

  module _ (total : (x y : A) → le x y ≡ false → le y x ≡ true) where
    IsBelow-insert : (x y : A) (l : List A) → le y x ≡ true → IsBelow y l → IsBelow y (insert x l)
    unfolding insert
    IsBelow-insert x y [] h b = h
    IsBelow-insert x y (z ∷ l) h b = elim (Bool-cases (le x z)) [
      | inl first ↦ rw first h
      | inr after ↦ rw after b
    ]

    insert-IsSorted : (x : A) (l : List A) → IsSorted l → IsSorted (insert x l)
    unfolding insert
    insert-IsSorted x [] h = (tt, tt)
    insert-IsSorted x (y ∷ l) h = elim (Bool-cases (le x y)) [
      | inl first ↦ rw first (first, h)
      | inr after ↦ rw after (IsBelow-insert x y l (total x y after) h.0, insert-IsSorted x l h.1)
    ]

    pub sort-IsSorted : (l : List A) → IsSorted (sort l)
    unfolding sort
    sort-IsSorted [] = tt
    sort-IsSorted (x ∷ l) = insert-IsSorted x (sort l) (sort-IsSorted l)

  -- A test that holds of items only that are at most each other keeps their order.
  module _ (p : A → Bool) (tied : (x y : A) → p x ≡ true → p y ≡ true → le x y ≡ true) where
    filterb-insert : (x : A) (l : List A) → filterb p (insert x l) ≡ filterb p (x ∷ l)
    unfolding insert
    filterb-insert x [] = refl
    filterb-insert x (y ∷ l) = elim (Bool-cases (le x y)) [
      | inl first ↦ rw first refl
      | inr after ↦ elim (Bool-cases (p x)) [
        | inl in_x ↦ elim (Bool-cases (p y)) [
          | inl in_y ↦ let first : le x y ≡ true = tied x y in_x in_y in cc
          | inr out_y ↦ rw (after, filterb-insert x l, in_x, out_y) refl
        ]
        | inr out_x ↦ rw (after, filterb-insert x l, out_x) refl
      ]
    ]

    -- Items that are tied stay in their order, and none is lost or made up.
    pub filterb-sort : (l : List A) → filterb p (sort l) ≡ filterb p l
    unfolding sort
    filterb-sort [] = refl
    filterb-sort (x ∷ l) =
        filterb-insert x (sort l) ∙ ap (λ rest. if p x then x ∷ rest else rest) (filterb-sort l)
