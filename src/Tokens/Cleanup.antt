-- ===== src/Tokens/Cleanup.antt =====
-- The periodic cleanup and the pops after it.
use wanderbound.Prelude.{
  ℕ, ◌≤◌, ◌≡◌, refl, ◌∙◌, ap, arith, String, Bool, not, string_eq, List, [], ◌∷◌, filter, length,
  Bool-cases, inl, inr,
}
use wanderbound.Tokens.{
  ArtifactToken, is_refused, is_row, is_expired, hand_out, take_row, pop, cleanup_expired,
}

filter_swap :
    {A : Type 0} (p q : A → Bool) (xs : List A) → filter p (filter q xs) ≡ filter q (filter p xs)
filter_swap p q [] = refl
filter_swap p q (x ∷ xs) = ground (arith, filter_swap p q xs)

module _ {Data : Type 0} (dir_name : String) where
  hand_out-cleaned :
      (rows : List (ArtifactToken Data)) (now later : ℕ)
      → now ≤ later
      → length rows ≤ 1
      → (hand_out (filter (λ row. not (is_expired dir_name now row)) rows) later).0
        ≡ (hand_out rows later).0
  unfolding hand_out
  hand_out-cleaned [] now later h few = refl
  hand_out-cleaned (row ∷ []) now later h few = ground arith
  hand_out-cleaned (row ∷ other ∷ rows) now later h few = absurd (omega arith)

  -- A pop after a cleanup gives what it would have given without it: a cleanup removes only what
  -- has expired. A token stands in one row at most.
  pub pop-cleanup_expired :
      (rows : List (ArtifactToken Data)) (token : String) (now later : ℕ)
      → now ≤ later
      → length (filter (is_row dir_name token) rows) ≤ 1
      → (pop dir_name (cleanup_expired dir_name rows now).0 token later).handed
        ≡ (pop dir_name rows token later).handed
  unfolding pop take_row cleanup_expired
  pop-cleanup_expired rows token now later h few = elim (Bool-cases (is_refused token)) [
    | inl refused ↦ rw (pop, refused) refl
    | inr good ↦
        rw (pop, good)
          (ap (λ xs. (hand_out xs later).0)
              (filter_swap (is_row dir_name token) (λ row. not (is_expired dir_name now row)) rows)
            ∙ hand_out-cleaned (filter (is_row dir_name token) rows) now later h few)
  ]
