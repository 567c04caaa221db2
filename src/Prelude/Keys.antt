-- ===== src/Prelude/Keys.antt =====
-- Boolean equality as an interface, and lists read as sets and as multisets through it.
use Prim.Native.Nat.{ℕ, ◌+◌, ◌≤◌}
use Prim.Native.String.{String}
use mathlib.Core.Path.{◌≡◌, refl, sym, ap, ◌∙◌, subst}
use mathlib.Core.Logic.{◌↔◌, inl, inr}
use mathlib.Core.Bool.{Bool, true, false, not, ◌&&◌, ◌||◌}
use mathlib.Core.List.{List, [], ◌∷◌, ◌++◌}
use native.Mathlib.Omega.{arith}
use text.Mathlib.Text.{◌==◌ as str_eq}
use text.Mathlib.TextEquality.{eq_iff}
use wanderbound.Prelude.Tests.{nat_beq, nat_beq_iff, if◌then◌else◌, Bool-cases}
use wanderbound.Prelude.Lists.{filter, all}

pub record Eq {ℓ} (A : Type ℓ) : Type ℓ where
  pub same : A → A → Bool
  pub same_iff : (a b : A) → (same a b ≡ true) ↔ (a ≡ b)

infix 50 ◌==◌
abbrev pub ◌==◌ {ℓ} : {A : Type ℓ} ⦃e : Eq A⦄ → A → A → Bool
◌==◌ ⦃e⦄ = e.same

module _ {ℓ} {A : Type ℓ} ⦃e : Eq A⦄ where
  -- `a in xs`
  abbrev pub contains : List A → A → Bool
  contains [] a = false
  contains (x ∷ xs) a = a == x || contains xs a

  abbrev pub count : List A → A → ℕ
  count [] a = 0
  count (x ∷ xs) a = (if a == x then 1 else 0) + count xs a

  pub eq_refl : (a : A) → (a == a) ≡ true
  eq_refl a = (e.same_iff a a).1 refl

  pub eq_comm : (a b : A) → (a == b) ≡ (b == a)
  eq_comm a b = elim (Bool-cases (a == b)) [
    | inl equal ↦ subst (λ c. (a == c) ≡ (c == a)) ((e.same_iff a b).0 equal) refl
    | inr apart ↦ elim (Bool-cases (b == a)) [
      | inl equal ↦ subst (λ c. (c == b) ≡ (b == c)) ((e.same_iff b a).0 equal) refl
      | inr still ↦ apart ∙ sym still
    ]
  ]

  pub contains-append :
      (xs ys : List A) (a : A) → contains (xs ++ ys) a ≡ (contains xs a || contains ys a)
  contains-append [] ys a = refl
  contains-append (x ∷ xs) ys a = ground (arith, contains-append xs ys a)

  pub count-append : (xs ys : List A) (a : A) → count (xs ++ ys) a ≡ count xs a + count ys a
  count-append [] ys a = omega arith
  count-append (x ∷ xs) ys a = omega (arith, count-append xs ys a)

  pub count-eq_zero : (xs : List A) (a : A) → contains xs a ≡ false → count xs a ≡ 0
  count-eq_zero [] a h = refl
  count-eq_zero (x ∷ xs) a h = ground (arith, count-eq_zero xs a)

  pub count_pos : (xs : List A) (a : A) → contains xs a ≡ true → 1 ≤ count xs a
  count_pos [] a h = ground arith
  count_pos (x ∷ xs) a h = ground (arith, count_pos xs a)

  -- `s.add(a)`
  abbrev pub set_add : List A → A → List A
  set_add s a = if contains s a then s else a ∷ s

  pub contains-set_add :
      (s : List A) (a b : A) → contains (set_add s a) b ≡ (b == a || contains s b)
  contains-set_add s a b = ground (arith, e.same_iff b a)

  -- `set(xs)`, by adding the elements to a set
  abbrev pub set_union : List A → List A → List A
  set_union s [] = s
  set_union s (x ∷ xs) = set_union (set_add s x) xs

  pub contains-set_union :
      (s xs : List A) (b : A) → contains (set_union s xs) b ≡ (contains s b || contains xs b)
  contains-set_union s [] b = ground arith
  contains-set_union s (x ∷ xs) b =
      ground (arith, contains-set_union (set_add s x) xs b, contains-set_add s x b)

  -- No element of `xs` is in `seen` or occurs twice.
  abbrev pub fresh : List A → List A → Bool
  fresh seen [] = true
  fresh seen (x ∷ xs) = not (contains seen x) && fresh (set_add seen x) xs

  pub fresh-append :
      (seen xs ys : List A)
      → fresh seen (xs ++ ys) ≡ (fresh seen xs && fresh (set_union seen xs) ys)
  fresh-append seen [] ys = refl
  fresh-append seen (x ∷ xs) ys = ground (arith, fresh-append (set_add seen x) xs ys)

  pub fresh→count :
      (seen xs : List A)
      → fresh seen xs ≡ true
      → (a : A) → (count xs a ≤ 1) × (contains seen a ≡ true → count xs a ≡ 0)
  fresh→count seen [] h a = (omega arith, λ k. refl)
  fresh→count seen (x ∷ xs) h a =
      let rest = fresh→count (set_add seen x) xs (ground arith) a in
      let grown = contains-set_add seen x a in
      (ground (arith, rest.1), ground (arith, rest.1, e.same_iff a x))

  pub count→fresh :
      (seen xs : List A)
      → ((a : A) → count xs a ≤ 1)
      → ((a : A) → contains seen a ≡ true → count xs a ≡ 0)
      → fresh seen xs ≡ true
  count→fresh seen [] h k = refl
  count→fresh seen (x ∷ xs) h k =
      let rest =
        count→fresh (set_add seen x) xs (λ a. ground (arith, h a))
          (λ a in_set. ground (arith, h a, k a, contains-set_add seen x a)) in
      ground (arith, rest, k x, eq_refl x)

  pub contains-filter :
      (p : A → Bool) (xs : List A) (a : A) → contains (filter p xs) a ≡ (contains xs a && p a)
  contains-filter p [] a = refl
  contains-filter p (x ∷ xs) a = elim (Bool-cases (a == x)) [
    | inl same ↦ let e' = (e.same_iff a x).0 same in ground (arith, contains-filter p xs a, ap p e')
    | inr other ↦ ground (arith, contains-filter p xs a)
  ]

  -- Two tests that agree on the elements keep the same elements.
  pub filter_congr :
      (p q : A → Bool) (xs : List A)
      → ((a : A) → contains xs a ≡ true → p a ≡ q a)
      → filter p xs ≡ filter q xs
  filter_congr p q [] h = refl
  filter_congr p q (x ∷ xs) h =
      let here = h x (ground (arith, eq_refl x)) in
      let rest = filter_congr p q xs (λ a k. h a (ground (arith, k))) in ground (arith, here, rest)

  pub contains-all :
      (p : A → Bool) (xs : List A) (a : A) → all p xs ≡ true → contains xs a ≡ true → p a ≡ true
  contains-all p [] a h k = absurd (ground arith)
  contains-all p (x ∷ xs) a h k = elim (Bool-cases (a == x)) [
    | inl same ↦ let e' = (e.same_iff a x).0 same in ground (arith, ap p e')
    | inr other ↦ contains-all p xs a (ground arith) (ground arith)
  ]

  pub count-filter :
      (p : A → Bool) (xs : List A) (a : A) → count (filter p xs) a ≡ (if p a then count xs a else 0)
  count-filter p [] a = ground arith
  count-filter p (x ∷ xs) a = elim (Bool-cases (a == x)) [
    | inl same ↦ let e' = (e.same_iff a x).0 same in ground (arith, count-filter p xs a, ap p e')
    | inr other ↦ ground (arith, count-filter p xs a)
  ]

-- texts are compared by code points, numbers by their value
instance abbrev pub string_eq : Eq String
string_eq = record { same_iff = eq_iff; same = str_eq }

instance abbrev pub nat_eq : Eq ℕ
nat_eq = record { same_iff = nat_beq_iff; same = nat_beq }
