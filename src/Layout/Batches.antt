-- ===== src/Layout/Batches.antt =====
-- Cutting a list into batches: nothing is lost, and how many and how long the batches are.
use wanderbound.Prelude.{
  ℕ, zero, suc, ◌+◌, ◌*◌, ◌/◌, ◌≤◌, ◌≡◌, refl, ap, arith, List, [], ◌∷◌, length, drop,
  take-append-drop, flatten, All, length-take, length-drop,
}
use wanderbound.Layout.{batched}

module _ {ℓ} {A : Type ℓ} where
  pub flatten-batched :
      (fuel size : ℕ) (items : List A)
      → length items ≤ fuel
      → 1 ≤ size
      → flatten (batched fuel size items) ≡ items
  unfolding batched
  flatten-batched zero size [] h k = refl
  flatten-batched zero size (x ∷ items) h k = absurd (omega arith)
  flatten-batched (suc fuel) size [] h k = refl
  flatten-batched (suc fuel) size (x ∷ items) h k =
      let ih =
        flatten-batched fuel size (drop size (x ∷ items))
          (omega (arith, length-drop {ℓ} size (x ∷ items))) k in
      rw ih (take-append-drop size (x ∷ items))

  pub length-batched_three :
      (fuel : ℕ) (items : List A)
      → length items ≤ fuel
      → length (batched fuel 3 items) ≡ (length items + 2) / 3
  unfolding batched
  length-batched_three zero [] h = omega arith
  length-batched_three zero (x ∷ items) h = absurd (omega arith)
  length-batched_three (suc fuel) [] h = omega arith
  length-batched_three (suc fuel) (x ∷ items) h = omega (
    arith,
    length-batched_three fuel (drop 3 (x ∷ items)) (omega (arith, length-drop {ℓ} 3 (x ∷ items))),
    length-drop {ℓ} 3 (x ∷ items),
  )

  -- every batch is full where the length is a multiple of the size
  pub batched_full :
      (fuel size k : ℕ) (items : List A)
      → length items ≡ k * size
      → All (λ page. length page ≡ size) (batched fuel size items)
  unfolding batched
  batched_full zero size k items h = tt
  batched_full (suc fuel) size k [] h = tt
  batched_full (suc fuel) size zero (x ∷ items) h = absurd (omega arith)
  batched_full (suc fuel) size (suc k) (x ∷ items) h = (
    omega (arith, length-take {ℓ} size (x ∷ items)),
    batched_full fuel size k (drop size (x ∷ items))
        (omega (arith, length-drop {ℓ} size (x ∷ items))),
  )

  pub length-batched_full :
      (fuel size k : ℕ) (items : List A)
      → length items ≡ k * size
      → k ≤ fuel
      → 1 ≤ size
      → length (batched fuel size items) ≡ k
  unfolding batched
  length-batched_full zero size k items h e p = omega arith
  length-batched_full (suc fuel) size zero [] h e p = refl
  length-batched_full (suc fuel) size (suc k) [] h e p = absurd (omega arith)
  length-batched_full (suc fuel) size zero (x ∷ items) h e p = absurd (omega arith)
  length-batched_full (suc fuel) size (suc k) (x ∷ items) h e p = ap suc (
      length-batched_full fuel size k (drop size (x ∷ items))
        (omega (arith, length-drop {ℓ} size (x ∷ items))) (omega arith) p)

  pub All-batched_short :
      (fuel size : ℕ) (items : List A)
      → 1 ≤ size
      → All (λ page. (1 ≤ length page) × (length page ≤ size)) (batched fuel size items)
  unfolding batched
  All-batched_short zero size items k = tt
  All-batched_short (suc fuel) size [] k = tt
  All-batched_short (suc fuel) size (x ∷ items) k = (
    (
      omega (arith, length-take {ℓ} size (x ∷ items)),
      omega (arith, length-take {ℓ} size (x ∷ items)),
    ),
    All-batched_short fuel size (drop size (x ∷ items)) k,
  )
