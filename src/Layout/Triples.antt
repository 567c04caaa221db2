-- ===== src/Layout/Triples.antt =====
-- The pages of one portrait and two landscapes.
use mathlib.Core.List.Perm
use mathlib.Core.List.{Perm, perm_middle}
use wanderbound.Prelude.{
  ℕ, zero, suc, ◌+◌, ◌*◌, ◌≤◌, ◌≡◌, refl, ap, arith, List, [], ◌∷◌, ◌++◌, some, length, take,
  flatten, All,
}
use wanderbound.Layout.{mixed_page, mixed_pages}

module _ {ℓ} {A : Type ℓ} where
  -- the same pages, read off the front of both lists
  pub triples : ℕ → List A → List A → List (List A)
  triples (suc k) (p ∷ ps) (a ∷ b ∷ ls) = (p ∷ a ∷ b ∷ []) ∷ triples k ps ls
  triples _ _ _ = []

  mixed_page-suc :
      (p a b : A) (ps ls : List A) (i : ℕ)
      → mixed_page (p ∷ ps) (a ∷ b ∷ ls) (suc i) ≡ mixed_page ps ls i
  unfolding mixed_page
  mixed_page-suc p a b ps ls i =
      let e : 2 * suc i ≡ suc (suc (2 * i)) = omega arith in
      let o : 2 * suc i + 1 ≡ suc (suc (2 * i + 1)) = omega arith in rw (o, e)

  mixed_pages-suc :
      (p a b : A) (ps ls : List A) (k i : ℕ)
      → mixed_pages (p ∷ ps) (a ∷ b ∷ ls) k (suc i) ≡ mixed_pages ps ls k i
  unfolding mixed_pages
  mixed_pages-suc p a b ps ls zero i = refl
  mixed_pages-suc p a b ps ls (suc k) i =
      rw (mixed_page-suc p a b ps ls i, mixed_pages-suc p a b ps ls k (suc i))

  -- No index is out of range while there are enough of both.
  pub mixed_pages-eq-triples :
      (ps ls : List A) (k : ℕ)
      → k ≤ length ps
      → 2 * k ≤ length ls
      → mixed_pages ps ls k 0 ≡ some (triples k ps ls)
  unfolding triples mixed_pages
  mixed_pages-eq-triples ps ls zero h e = refl
  mixed_pages-eq-triples [] ls (suc k) h e = absurd (omega arith)
  mixed_pages-eq-triples (p ∷ ps) [] (suc k) h e = absurd (omega arith)
  mixed_pages-eq-triples (p ∷ ps) (a ∷ []) (suc k) h e = absurd (omega arith)
  mixed_pages-eq-triples (p ∷ ps) (a ∷ b ∷ ls) (suc k) h e =
      rw (
        mixed_pages-suc p a b ps ls k 0,
        mixed_pages-eq-triples ps ls k (omega arith) (omega arith),
      )

  pub length-triples :
      (ps ls : List A) (k : ℕ) → k ≤ length ps → 2 * k ≤ length ls → length (triples k ps ls) ≡ k
  unfolding triples
  length-triples ps ls zero h e = refl
  length-triples [] ls (suc k) h e = absurd (omega arith)
  length-triples (p ∷ ps) [] (suc k) h e = absurd (omega arith)
  length-triples (p ∷ ps) (a ∷ []) (suc k) h e = absurd (omega arith)
  length-triples (p ∷ ps) (a ∷ b ∷ ls) (suc k) h e =
      ap suc (length-triples ps ls k (omega arith) (omega arith))

  pub flatten-triples-perm :
      (ps ls : List A) (k : ℕ)
      → k ≤ length ps
      → 2 * k ≤ length ls
      → Perm (flatten (triples k ps ls)) (take k ps ++ take (2 * k) ls)
  unfolding triples
  flatten-triples-perm ps ls zero h e = Perm.nil
  flatten-triples-perm [] ls (suc k) h e = absurd (omega arith)
  flatten-triples-perm (p ∷ ps) [] (suc k) h e = absurd (omega arith)
  flatten-triples-perm (p ∷ ps) (a ∷ []) (suc k) h e = absurd (omega arith)
  flatten-triples-perm (p ∷ ps) (a ∷ b ∷ ls) (suc k) h e =
      let d : 2 * suc k ≡ suc (suc (2 * k)) = omega arith in
      let ih = flatten-triples-perm ps ls k (omega arith) (omega arith) in
      let back =
        Perm.trans (perm_middle (take k ps) (b ∷ take (2 * k) ls))
          (Perm.cons a (perm_middle (take k ps) (take (2 * k) ls))) in
      rw d (Perm.cons p (Perm.trans (Perm.cons a (Perm.cons b ih)) (Perm.symm back)))

  pub All-triples {κ} :
      (P : List A → Type κ) (Q R : A → Type κ)
      → ((p a b : A) → Q p → R a → R b → P (p ∷ a ∷ b ∷ []))
      → (k : ℕ) (ps ls : List A) → All Q ps
      → All R ls
      → All P (triples k ps ls)
  unfolding triples
  All-triples P Q R f (suc k) (p ∷ ps) (a ∷ b ∷ ls) h e =
      (f p a b h.0 e.0 e.1.0, All-triples P Q R f k ps ls h.1 e.1.1)
  All-triples P Q R f _ _ _ h e = tt
