-- ===== src/Layout/Landscapes.antt =====
-- The pages that hold landscapes only.
use wanderbound.Prelude.{
  ℕ, ◌+◌, ◌-◌, ◌*◌, ◌/◌, ◌≤◌, ◌<◌, ◌≡◌, refl, ap, ◌∙◌, false, ◌⊎◌, inl, inr, arith, Bool-cases,
  nat_beq, ltb, List, [], ◌∷◌, ◌++◌, map, length, take, drop, take-append-drop, flatten,
  flatten-append, All, All-append, length-append, length-take, length-drop, length-map,
}
use mathlib.Core.List.{append-nil}
use wanderbound.Layout.{landscape_page_count, three_page_count, pages_of, landscape_pages}
use wanderbound.Layout.Batches.{flatten-batched, length-batched_full, batched_full}

three_page_count-le : (n : ℕ) → 3 ≤ n → nat_beq n 5 ≡ false → 3 * three_page_count n ≤ n
unfolding three_page_count
three_page_count-le n h k = ground arith

-- what is left after the threes fills pages of four
three_page_count-cut :
    (n : ℕ)
    → 3 * three_page_count n ≤ n
    → n - 3 * three_page_count n ≡ (n - 3 * three_page_count n) / 4 * 4
unfolding three_page_count
three_page_count-cut n h = omega arith

landscape_page_count-lem :
    (n : ℕ)
    → 3 ≤ n
    → 3 * three_page_count n ≤ n
    → (n - 3 * three_page_count n) / 4 + three_page_count n ≡ landscape_page_count n
unfolding three_page_count landscape_page_count
landscape_page_count-lem n h k = ground arith

abbrev pub IsLandscapeSize : ℕ → Type 0
IsLandscapeSize n = (n ≡ 1) ⊎ (n ≡ 3) ⊎ (n ≡ 4)

module _ {ℓ} {A : Type ℓ} where
  flatten-singles : (xs : List A) → flatten (map (λ p. p ∷ []) xs) ≡ xs
  flatten-singles [] = refl
  flatten-singles (x ∷ xs) = ap (◌∷◌ x) (flatten-singles xs)

  All-singles : (xs : List A) → All (λ page. IsLandscapeSize (length page)) (map (λ p. p ∷ []) xs)
  All-singles [] = tt
  All-singles (x ∷ xs) = (inl refl, All-singles xs)

  All-map {κ μ} :
      {P : List A → Type κ} {Q : List A → Type μ} (f : (xs : List A) → P xs → Q xs)
      (xss : List (List A))
      → All P xss
      → All Q xss
  All-map f [] h = tt
  All-map f (xs ∷ xss) h = (f xs h.0, All-map f xss h.1)

  -- the three ways to lay landscapes out, for a property of the pages
  landscape_pages_ind {κ} :
      (P : List A → List (List A) → Type κ)
      → ((xs : List A) → length xs < 3 → P xs (map (λ p. p ∷ []) xs))
      → ((xs : List A) → length xs ≡ 5 → P xs (take 4 xs ∷ drop 4 xs ∷ []))
      → ((xs : List A)
          → 3 ≤ length xs
          → 3 * three_page_count (length xs) ≤ length xs
          → P xs (
              pages_of (take (length xs - 3 * three_page_count (length xs)) xs) 4
              ++ pages_of (drop (length xs - 3 * three_page_count (length xs)) xs) 3))
      → (xs : List A) → P xs (landscape_pages xs)
  unfolding landscape_pages
  landscape_pages_ind P few five rest xs = elim (Bool-cases (ltb (length xs) 3)) [
    | inl small ↦ rw small (few xs (ground arith))
    | inr large ↦ elim (Bool-cases (nat_beq (length xs) 5)) [
      | inl is_five ↦ rw (large, is_five) (five xs (ground arith))
      | inr other ↦
          rw (large, other)
            (rest xs (ground arith) (three_page_count-le (length xs) (ground arith) other))
    ]
  ]

  pub flatten-landscape_pages : (xs : List A) → flatten (landscape_pages xs) ≡ xs
  unfolding pages_of
  flatten-landscape_pages =
      landscape_pages_ind (λ xs pages. flatten pages ≡ xs) (λ xs _. flatten-singles xs)
        (λ xs _. rw append-nil (take-append-drop 4 xs))
        λ xs _ _.
          let cut = length xs - 3 * three_page_count (length xs) in
          rw
            (
              flatten-append,
              flatten-batched (length (take cut xs)) 4 (take cut xs) (omega arith) (omega arith),
              flatten-batched (length (drop cut xs)) 3 (drop cut xs) (omega arith) (omega arith),
            )
            (take-append-drop cut xs)

module _ {ℓ} {A : Type ℓ} (xs : List A) (threes : ℕ) (fits : 3 * threes ≤ length xs)
    (whole : length xs - 3 * threes ≡ (length xs - 3 * threes) / 4 * 4) where
  abbrev cut : ℕ
  cut = length xs - 3 * threes

  fours_length : length (take cut xs) ≡ cut / 4 * 4
  fours_length = omega (arith, length-take {ℓ} cut xs)

  threes_length : length (drop cut xs) ≡ threes * 3
  threes_length = omega (arith, length-drop {ℓ} cut xs)

  length-cut_pages :
      length (pages_of (take cut xs) 4 ++ pages_of (drop cut xs) 3) ≡ cut / 4 + threes
  unfolding pages_of
  length-cut_pages = omega (
    arith,
    length-append {ℓ} (pages_of (take cut xs) 4) (pages_of (drop cut xs) 3),
    length-batched_full (length (take cut xs)) 4 (cut / 4) (take cut xs) fours_length
        (omega (arith, fours_length)) (omega arith),
    length-batched_full (length (drop cut xs)) 3 threes (drop cut xs) threes_length
        (omega (arith, threes_length)) (omega arith),
  )

  cut_pages-IsLandscapeSize :
      All
        (λ page. IsLandscapeSize (length page))
        (pages_of (take cut xs) 4 ++ pages_of (drop cut xs) 3)
  unfolding pages_of
  cut_pages-IsLandscapeSize =
      All-append (λ page. IsLandscapeSize (length page)) (pages_of (take cut xs) 4)
        (pages_of (drop cut xs) 3)
        (All-map (λ page e. inr (inr e)) _ (batched_full _ 4 (cut / 4) (take cut xs) fours_length))
        (All-map (λ page e. inr (inl e)) _ (batched_full _ 3 threes (drop cut xs) threes_length))

module _ {ℓ} {A : Type ℓ} where
  pub length-landscape_pages :
      (xs : List A) → length (landscape_pages xs) ≡ landscape_page_count (length xs)
  length-landscape_pages =
      landscape_pages_ind (λ xs pages. length pages ≡ landscape_page_count (length xs))
        (λ xs h. length-map (λ p. p ∷ []) xs ∙ unfold landscape_page_count in ground arith)
        (λ xs h. rw h (unfold landscape_page_count in refl))
        λ xs h k.
          length-cut_pages xs (three_page_count (length xs)) k (three_page_count-cut (length xs) k)
          ∙ landscape_page_count-lem (length xs) h k

  pub landscape_pages-IsLandscapeSize :
      (xs : List A) → All (λ page. IsLandscapeSize (length page)) (landscape_pages xs)
  landscape_pages-IsLandscapeSize =
      landscape_pages_ind (λ xs pages. All (λ page. IsLandscapeSize (length page)) pages)
        (λ xs _. All-singles xs)
        (λ xs h. (omega (arith, length-take {ℓ} 4 xs), (omega (arith, length-drop {ℓ} 4 xs), tt)))
        λ xs h k.
          cut_pages-IsLandscapeSize xs (three_page_count (length xs)) k
            (three_page_count-cut (length xs) k)
