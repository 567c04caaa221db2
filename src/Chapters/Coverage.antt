-- ===== src/Chapters/Coverage.antt =====
-- When the steps of the payload and the stored steps are the same set.
use wanderbound.Prelude.{
  ℕ, ◌≡◌, ◌↔◌, refl, ◌∙◌, Bool, true, false, ◌&&◌, arith, List, [], ◌∷◌, contains, sym, nat_eq,
  string_eq, nat_beq, nat_beq_iff, eq_refl, leb, is_empty, Bool-cases, inl, inr,
}
use wanderbound.Prelude.Sorting.{sorted, is_empty-sorted}
use wanderbound.Chapters.{
  ChapterError, unknown_steps, missing_steps, ok, err, set_difference, expect_none,
  validate_step_coverage,
}

expect_none_lem :
    (f : List ℕ → ChapterError) (xs : List ℕ)
    → (is_empty xs ≡ true → expect_none f xs ≡ ok tt)
      × (is_empty xs ≡ false → (x : ChapterError) × (expect_none f xs ≡ err x))
unfolding expect_none
expect_none_lem f [] = (λ h. refl, λ h. absurd (ground arith))
expect_none_lem f (x ∷ xs) = (λ h. absurd (ground arith), λ h. (f (x ∷ xs), refl))

abbrev Within : List ℕ → List ℕ → Type 0
Within a b = (i : ℕ) → contains a i ≡ true → contains b i ≡ true

is_empty-set_difference : (a b : List ℕ) → (is_empty (set_difference a b) ≡ true) ↔ Within a b
unfolding set_difference
is_empty-set_difference [] b = (λ h i k. absurd (ground arith), λ h. refl)
is_empty-set_difference (x ∷ a) b =
    let (to, from) = is_empty-set_difference a b in
    (
      λ h i k.
          let inside : contains b x ≡ true = ground arith in
          let rest : is_empty (set_difference a b) ≡ true = ground arith in
          elim (Bool-cases (nat_beq i x)) [
            | inl same ↦ rw ((nat_beq_iff i x).0 same) inside
            | inr other ↦ to rest i (rw other at k)
          ],
      λ h.
          let inside = h x (ground (arith, eq_refl x)) in
          let rest = from (λ i k. h i (ground (arith, k))) in ground (arith, inside, rest),
    )

-- whether the two sets hold the same steps
pub same_steps : List ℕ → List ℕ → Bool
same_steps a b = is_empty (set_difference a b) && is_empty (set_difference b a)

pub same_steps→eq : (a b : List ℕ) → same_steps a b ≡ true → (i : ℕ) → contains a i ≡ contains b i
unfolding same_steps
same_steps→eq a b h i =
    let there = (is_empty-set_difference a b).0 (ground arith) i in
    let back = (is_empty-set_difference b a).0 (ground arith) i in ground (arith, there, back)

pub eq→same_steps : (a b : List ℕ) → ((i : ℕ) → contains a i ≡ contains b i) → same_steps a b ≡ true
unfolding same_steps
eq→same_steps a b h =
    let there = (is_empty-set_difference a b).1 (λ i k. sym (h i) ∙ k) in
    let back = (is_empty-set_difference b a).1 (λ i k. h i ∙ k) in ground (arith, there, back)

pub coverage-of_same : (a b : List ℕ) → same_steps a b ≡ true → validate_step_coverage a b ≡ ok tt
unfolding validate_step_coverage same_steps
coverage-of_same a b h =
    let first =
      (expect_none_lem unknown_steps (sorted leb (set_difference a b))).0
        (is_empty-sorted leb (set_difference a b) ∙ ground arith) in
    let second =
      (expect_none_lem missing_steps (sorted leb (set_difference b a))).0
        (is_empty-sorted leb (set_difference b a) ∙ ground arith) in
    rw first second

pub coverage-of_different :
    (a b : List ℕ)
    → same_steps a b ≡ false
    → (x : ChapterError) × (validate_step_coverage a b ≡ err x)
unfolding validate_step_coverage same_steps
coverage-of_different a b h = elim (Bool-cases (is_empty (set_difference a b))) [
  | inl inside ↦
      let first =
        (expect_none_lem unknown_steps (sorted leb (set_difference a b))).0
          (is_empty-sorted leb (set_difference a b) ∙ inside) in
      let (x, e) =
        (expect_none_lem missing_steps (sorted leb (set_difference b a))).1
          (is_empty-sorted leb (set_difference b a) ∙ ground arith) in
      (x, rw first e)
  | inr outside ↦
      let (x, e) =
        (expect_none_lem unknown_steps (sorted leb (set_difference a b))).1
          (is_empty-sorted leb (set_difference a b) ∙ outside) in
      (x, rw e refl)
]
