-- ===== src/Matching/Optimal.antt =====
-- What the matching is the best of.
use wanderbound.Prelude.{
  ℕ, zero, suc, ◌+◌, ◌*◌, ◌≤◌, ◌<◌, ◌≡◌, ◌⊎◌, inl, inr, refl, ap, arith, true, Option, none, some,
  List, [], ◌∷◌, length, get_elem?, leb, leb→le, Bool-cases, Option-cases,
}
use wanderbound.Operations.Lifecycle.{some-injective}
use wanderbound.Matching.{
  HashedMedia, MatchResult, hamming, cost, unmatched_cost, weight_of, add_weight, weight,
  is_injective, matches, Solver, match_media_globally,
}

-- the sum of the distances
abbrev pub total_distance : List MatchResult → ℕ
total_distance [] = 0
total_distance (found ∷ rest) = found.distance + total_distance rest

abbrev unmatched : List (Option ℕ) → ℕ
unmatched [] = 0
unmatched (none ∷ columns) = suc (unmatched columns)
unmatched (some column ∷ columns) = unmatched columns

no_weight : {w : ℕ} → none ≡ some w → ⊥
no_weight h = absurd cc

module _ (candidates : List HashedMedia) (threshold : ℕ) where
  -- an assignment of the table has the weight of its matches and of the photos left over
  weight-matches :
      (u : ℕ) (photos : List HashedMedia) (columns : List (Option ℕ)) (w : ℕ)
      → weight candidates threshold u photos columns ≡ some w
      → (w
          ≡ total_distance (matches candidates threshold photos columns)
            + length photos
            + unmatched columns * u)
        × (length (matches candidates threshold photos columns) + unmatched columns ≡ length photos)
        × (total_distance (matches candidates threshold photos columns)
            ≤ length (matches candidates threshold photos columns) * threshold)
  unfolding weight matches cost weight_of add_weight
  weight-matches u [] [] w h = (omega (arith, some-injective h), refl, omega arith)
  weight-matches u [] (column ∷ columns) w h = absurd cc
  weight-matches u (photo ∷ photos) [] w h = absurd cc
  weight-matches u (photo ∷ photos) (none ∷ columns) w h =
      elim (Option-cases (weight candidates threshold u photos columns)) [
        | inl lost ↦ absurd (no_weight (rw lost at h))
        | inr (v, e) ↦
            let (a, b, c) = weight-matches u photos columns v e in
            let s : u + 1 + v ≡ w = some-injective (rw e at h) in
            (omega (arith, a, s), omega (arith, b), c)
      ]
  weight-matches u (photo ∷ photos) (some column ∷ columns) w h =
      elim (Option-cases (get_elem? candidates column)) [
        | inl outside ↦ absurd (no_weight (rw (weight, cost, outside) at h))
        | inr (candidate, found) ↦
            let d = hamming photo.hash candidate.hash in
            elim (Bool-cases (leb d threshold)) [
              | inr far ↦ absurd (no_weight (rw (weight, cost, found, weight_of, far) at h))
              | inl near ↦ elim (Option-cases (weight candidates threshold u photos columns)) [
                | inl lost ↦
                    absurd (no_weight (rw (weight, cost, found, weight_of, near, lost) at h))
                | inr (v, e) ↦
                    let (a, b, c) = weight-matches u photos columns v e in
                    let s : d + 1 + v ≡ w =
                      some-injective (rw (weight, cost, found, weight_of, near, e) at h) in
                    rw (matches, found)
                      (
                        omega (arith, a, s),
                        omega (arith, b),
                        omega (arith, c, leb→le d threshold near),
                      )
              ]
            ]
      ]

mul_le : (m n t : ℕ) → m ≤ n → m * t ≤ n * t
mul_le zero n t h = omega arith
mul_le (suc m) zero t h = absurd (omega (arith, h))
mul_le (suc m) (suc n) t h = omega (arith, mul_le m n t (omega (arith, h)))

least_weight :
    (u a ka b kb : ℕ) → a < u → b < u → a + ka * u ≤ b + kb * u → (ka < kb) ⊎ ((ka ≡ kb) × (a ≤ b))
least_weight u a zero b zero h k l = inr (refl, omega (arith, l))
least_weight u a zero b (suc kb) h k l = inl (omega arith)
least_weight u a (suc ka) b zero h k l = absurd (omega (arith, h, k, l))
least_weight u a (suc ka) b (suc kb) h k l =
    elim (least_weight u a ka b kb h k (omega (arith, l))) [
      | inl fewer ↦ inl (omega (arith, fewer))
      | inr (same, near) ↦ inr (ap suc same, near)
    ]

no_candidates :
    (threshold : ℕ) (photos : List HashedMedia) (columns : List (Option ℕ))
    → matches [] threshold photos columns ≡ []
unfolding matches
no_candidates threshold [] columns = refl
no_candidates threshold (photo ∷ photos) [] = refl
no_candidates threshold (photo ∷ photos) (none ∷ columns) = no_candidates threshold photos columns
no_candidates threshold (photo ∷ photos) (some column ∷ columns) =
    no_candidates threshold photos columns

total_bound :
    (candidates : List HashedMedia) (threshold u : ℕ) (photos : List HashedMedia)
    (columns : List (Option ℕ)) (w : ℕ)
    → weight candidates threshold u photos columns ≡ some w
    → total_distance (matches candidates threshold photos columns) < length photos * threshold + 1
total_bound candidates threshold u photos columns w h =
    let (a, b, c) = weight-matches candidates threshold u photos columns w h in
    let m = length (matches candidates threshold photos columns) in
    omega (arith, c, mul_le m (length photos) threshold (omega (arith, b)))

-- What the library's matching promises: the columns that it gives are a matching of the table, and
-- no other matching weighs less.
pub record IsLeast (photos candidates : List HashedMedia) (threshold : ℕ)
    (columns : List (Option ℕ)) : Type 0 where
  pub weight_given : ℕ
  pub is_matching :
      weight candidates threshold (unmatched_cost photos threshold) photos columns
      ≡ some weight_given
  pub gives_once : is_injective candidates threshold [] columns ≡ true
  pub least :
      (others : List (Option ℕ)) (v : ℕ)
      → is_injective candidates threshold [] others ≡ true
      → weight candidates threshold (unmatched_cost photos threshold) photos others ≡ some v
      → weight_given ≤ v

-- With a matching of least weight, the photos are matched in the best way: any other assignment of
-- the photos to different candidates within the threshold has fewer matches, or as many with a total
-- distance that is not smaller.
pub match_media_globally-best :
    (solve : Solver) (photos candidates : List HashedMedia) (threshold : ℕ)
    (others : List (Option ℕ)) (v : ℕ)
    → IsLeast photos candidates threshold (solve photos candidates threshold)
    → is_injective candidates threshold [] others ≡ true
    → weight candidates threshold (unmatched_cost photos threshold) photos others ≡ some v
    → (length (matches candidates threshold photos others)
        < length (match_media_globally solve photos candidates threshold))
      ⊎ ((length (matches candidates threshold photos others)
            ≡ length (match_media_globally solve photos candidates threshold))
          × (total_distance (match_media_globally solve photos candidates threshold)
              ≤ total_distance (matches candidates threshold photos others)))
unfolding match_media_globally matches unmatched_cost
match_media_globally-best solve [] candidates threshold others v given once h =
    inr (refl, omega arith)
match_media_globally-best solve (photo ∷ photos) [] threshold others v given once h =
    rw (no_candidates threshold (photo ∷ photos) others) (inr (refl, omega arith))
match_media_globally-best solve (photo ∷ photos) (first ∷ candidates) threshold others v given once
      h =
    let all = photo ∷ photos in
    let from = first ∷ candidates in
    let u = unmatched_cost all threshold in
    let chosen = solve all from threshold in
    let (a, b, c) =
      weight-matches from threshold u all chosen given.weight_given given.is_matching in
    let (d, e, f) = weight-matches from threshold u all others v h in
    let less = given.least others v once h in
    elim (least_weight u (total_distance (matches from threshold all chosen)) (unmatched chosen)
      (total_distance (matches from threshold all others)) (unmatched others)
      (total_bound from threshold u all chosen given.weight_given given.is_matching)
      (total_bound from threshold u all others v h) (omega (arith, a, d, less))) [
        | inl fewer ↦ inl (omega (arith, fewer, b, e))
        | inr (same, near) ↦ inr (omega (arith, same, b, e), near)
      ]
