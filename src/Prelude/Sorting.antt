-- ===== src/Prelude/Sorting.antt =====
-- Python's `sorted`: a stable sort, by insertion. An element goes in front of the elements that it
-- may precede, so elements with equal keys keep their order.
use mathlib.Core.List.Perm
use mathlib.Core.List.{List, [], ◌∷◌, map, Perm}
use mathlib.Core.Path.{◌≡◌, refl}
use mathlib.Core.Logic.{inl, inr}
use mathlib.Core.Bool.{Bool, true, false, ◌||◌}
use native.Mathlib.Omega.{arith}
use wanderbound.Prelude.Tests.{if◌then◌else◌, Bool-cases}
use wanderbound.Prelude.Keys.{Eq, ◌==◌, contains, count}
use wanderbound.Prelude.Lists.{All, All-imp, is_empty}

module _ {ℓ} {A : Type ℓ} (le : A → A → Bool) where
  unfoldable pub insert_sorted : A → List A → List A
  insert_sorted x [] = x ∷ []
  insert_sorted x (y ∷ ys) = if le x y then x ∷ y ∷ ys else y ∷ insert_sorted x ys

  unfoldable pub sorted : List A → List A
  unfolding insert_sorted
  sorted [] = []
  sorted (x ∷ xs) = insert_sorted x (sorted xs)

  insert_sorted-perm : (x : A) (ys : List A) → Perm (insert_sorted x ys) (x ∷ ys)
  unfolding insert_sorted
  insert_sorted-perm x [] = Perm.rfl
  insert_sorted-perm x (y ∷ ys) = elim (Bool-cases (le x y)) [
    | inl before ↦ rw before Perm.rfl
    | inr behind ↦ rw behind (Perm.trans (Perm.cons y (insert_sorted-perm x ys)) (Perm.swap x y ys))
  ]

  pub sorted-perm : (xs : List A) → Perm (sorted xs) xs
  unfolding sorted
  sorted-perm [] = Perm.nil
  sorted-perm (x ∷ xs) =
      Perm.trans (insert_sorted-perm x (sorted xs)) (Perm.cons x (sorted-perm xs))

  is_empty-insert_sorted : (x : A) (ys : List A) → is_empty (insert_sorted x ys) ≡ false
  unfolding insert_sorted
  is_empty-insert_sorted x [] = refl
  is_empty-insert_sorted x (y ∷ ys) = ground arith

  pub is_empty-sorted : (xs : List A) → is_empty (sorted xs) ≡ is_empty xs
  unfolding sorted
  is_empty-sorted [] = refl
  is_empty-sorted (x ∷ xs) = is_empty-insert_sorted x (sorted xs)

  contains-insert_sorted :
      ⦃e : Eq A⦄ (x : A) (ys : List A) (a : A)
      → contains (insert_sorted x ys) a ≡ (a == x || contains ys a)
  unfolding insert_sorted
  contains-insert_sorted x [] a = refl
  contains-insert_sorted x (y ∷ ys) a = ground (arith, contains-insert_sorted x ys a)

  pub contains-sorted : ⦃e : Eq A⦄ (xs : List A) (a : A) → contains (sorted xs) a ≡ contains xs a
  unfolding sorted
  contains-sorted [] a = refl
  contains-sorted (x ∷ xs) a =
      ground (arith, contains-insert_sorted x (sorted xs) a, contains-sorted xs a)

  module _ {κ} {B : Type κ} ⦃e : Eq B⦄ (f : A → B) where
    count-insert_sorted :
        (x : A) (ys : List A) (b : B)
        → count (map f (insert_sorted x ys)) b ≡ count (map f (x ∷ ys)) b
    unfolding insert_sorted
    count-insert_sorted x [] b = refl
    count-insert_sorted x (y ∷ ys) b = ground (arith, count-insert_sorted x ys b)

    pub count-sorted : (xs : List A) (b : B) → count (map f (sorted xs)) b ≡ count (map f xs) b
    unfolding sorted
    count-sorted [] b = refl
    count-sorted (x ∷ xs) b = omega (arith, count-insert_sorted x (sorted xs) b, count-sorted xs b)

  -- Each element may precede all that follow it.
  abbrev pub IsSorted : List A → Type 0
  IsSorted [] = Unit
  IsSorted (x ∷ xs) = All (λ y. le x y ≡ true) xs × IsSorted xs

  module _ (total : (x y : A) → le x y ≡ false → le y x ≡ true)
      (trans : (x y z : A) → le x y ≡ true → le y z ≡ true → le x z ≡ true) where
    All-insert_sorted :
        (P : A → Type 0) (x : A) (ys : List A) → P x → All P ys → All P (insert_sorted x ys)
    unfolding insert_sorted
    All-insert_sorted P x [] h k = (h, tt)
    All-insert_sorted P x (y ∷ ys) h k = elim (Bool-cases (le x y)) [
      | inl before ↦ rw before (h, k)
      | inr behind ↦ rw behind (k.0, All-insert_sorted P x ys h k.1)
    ]

    insert_sorted-IsSorted : (x : A) (ys : List A) → IsSorted ys → IsSorted (insert_sorted x ys)
    unfolding insert_sorted
    insert_sorted-IsSorted x [] h = (tt, tt)
    insert_sorted-IsSorted x (y ∷ ys) h = elim (Bool-cases (le x y)) [
      | inl before ↦ rw before (
        (
          before,
          All-imp (λ z. le y z ≡ true) (λ z. le x z ≡ true) (λ z. trans x y z before) ys h.0,
        ),
        h,
      )
      | inr behind ↦ rw behind (
        All-insert_sorted (λ z. le y z ≡ true) x ys (total x y behind) h.0,
        insert_sorted-IsSorted x ys h.1,
      )
    ]

    pub sorted-IsSorted : (xs : List A) → IsSorted (sorted xs)
    unfolding sorted
    sorted-IsSorted [] = tt
    sorted-IsSorted (x ∷ xs) = insert_sorted-IsSorted x (sorted xs) (sorted-IsSorted xs)
