-- ===== src/StepMedia/Order.antt =====
-- What a stable sort does to the part of a list that a query selects.
use wanderbound.Prelude.{
  ◌≡◌, refl, ◌∙◌, ap, arith, Bool, true, false, List, [], ◌∷◌, filter, All, if◌then◌else◌,
  Bool-cases, inl, inr,
}
use wanderbound.Prelude.Sorting.{insert_sorted, sorted, IsSorted, sorted-IsSorted}

module _ {A : Type 0} (le : A → A → Bool) where
  pub sorted_of_IsSorted : (xs : List A) → IsSorted le xs → sorted le xs ≡ xs
  unfolding sorted insert_sorted
  sorted_of_IsSorted [] h = refl
  sorted_of_IsSorted (x ∷ []) h = refl
  sorted_of_IsSorted (x ∷ y ∷ xs) h =
      ap (insert_sorted le x) (sorted_of_IsSorted (y ∷ xs) h.1) ∙ rw h.0.0 refl

  module _ (p : A → Bool) where
    filter-insert_same :
        ((x y : A) → p x ≡ true → p y ≡ true → le x y ≡ true)
        → (x : A) (ys : List A) → filter p (insert_sorted le x ys) ≡ filter p (x ∷ ys)
    unfolding insert_sorted
    filter-insert_same same x [] = refl
    filter-insert_same same x (y ∷ ys) = elim (Bool-cases (le x y)) [
      | inl before ↦ rw before refl
      | inr behind ↦ ground (arith, same x y, filter-insert_same same x ys)
    ]

    -- Selected rows whose keys are equal keep their order.
    pub filter-sorted_same :
        ((x y : A) → p x ≡ true → p y ≡ true → le x y ≡ true)
        → (xs : List A) → filter p (sorted le xs) ≡ filter p xs
    unfolding sorted
    filter-sorted_same same [] = refl
    filter-sorted_same same (x ∷ xs) =
        filter-insert_same same x (sorted le xs) ∙ ground (arith, filter-sorted_same same xs)

    module _ (total : (x y : A) → le x y ≡ false → le y x ≡ true)
        (trans : (x y z : A) → le x y ≡ true → le y z ≡ true → le x z ≡ true) where
      insert-filter :
          (x : A) (ys : List A)
          → All (λ y. le x y ≡ true) ys
          → insert_sorted le x (filter p ys) ≡ x ∷ filter p ys
      unfolding insert_sorted
      insert-filter x [] h = refl
      insert-filter x (y ∷ ys) h = elim (Bool-cases (p y)) [
        | inl chosen ↦ rw (chosen, h.0) refl
        | inr passed ↦ rw passed (insert-filter x ys h.1)
      ]

      All-after :
          (x y : A) (ys : List A)
          → le x y ≡ true
          → All (λ z. le y z ≡ true) ys
          → All (λ z. le x z ≡ true) ys
      All-after x y [] e h = tt
      All-after x y (z ∷ ys) e h = (trans x y z e h.0, All-after x y ys e h.1)

      filter-insert_sorted :
          (x : A) (ys : List A)
          → IsSorted le ys
          → filter p (insert_sorted le x ys)
            ≡ (if p x then insert_sorted le x (filter p ys) else filter p ys)
      unfolding insert_sorted
      filter-insert_sorted x [] h = refl
      filter-insert_sorted x (y ∷ ys) h = elim (Bool-cases (le x y)) [
        | inl before ↦
            ground (arith, insert-filter x (y ∷ ys) (before, All-after x y ys before h.0))
        | inr behind ↦ ground (arith, filter-insert_sorted x ys h.1)
      ]

      -- Selecting and sorting can be done in either order.
      pub filter-sorted : (xs : List A) → filter p (sorted le xs) ≡ sorted le (filter p xs)
      unfolding sorted
      filter-sorted [] = refl
      filter-sorted (x ∷ xs) =
          filter-insert_sorted x (sorted le xs) (sorted-IsSorted le total trans xs)
          ∙ ground (arith, filter-sorted xs)
