-- ===== src/Layout/Mixed.antt =====
-- What the search for the number of mixed pages finds.
use wanderbound.Prelude.{ℕ, zero, suc, ◌+◌, ◌*◌, ◌/◌, ◌≤◌, ◌<◌, min, ◌≡◌, refl, ◌⊎◌, inr, arith}
use native.Mathlib.Decide.{ℕ_discrete}
use wanderbound.Layout.{
  Best, mixed_total, mixed_bad, try_mixed, mixed_loop, optimal_mixed_count, portrait_page_count,
  landscape_page_count, three_page_count, bad_page_count,
}

-- At least as good: fewer pages, or as many and no more bad ones.
abbrev pub NoWorse : ℕ → ℕ → ℕ → ℕ → Type 0
NoWorse t b t' b' = (t < t') ⊎ ((t ≡ t') × (b ≤ b'))

try_mixed-NoWorse :
    (p l b : ℕ) (best : Best)
    → NoWorse (try_mixed p l b best).total (try_mixed p l b best).bad best.total best.bad
unfolding try_mixed
try_mixed-NoWorse p l b best = ground arith

try_mixed-NoWorse_candidate :
    (p l b : ℕ) (best : Best)
    → NoWorse
        (try_mixed p l b best).total
        (try_mixed p l b best).bad
        (mixed_total p l b)
        (mixed_bad p l b)
unfolding try_mixed
try_mixed-NoWorse_candidate p l b best = ground arith

-- the variables describe the candidate `b`
record IsCurrent (p l : ℕ) (best : Best) : Type 0 where
  total : best.total ≡ mixed_total p l best.b
  bad : best.bad ≡ mixed_bad p l best.b

try_mixed-IsCurrent :
    (p l b : ℕ) (best : Best) → IsCurrent p l best → IsCurrent p l (try_mixed p l b best)
unfolding try_mixed
try_mixed-IsCurrent p l b best h = ground arith

mixed_loop-IsCurrent :
    (p l rounds b : ℕ) (best : Best)
    → IsCurrent p l best
    → IsCurrent p l (mixed_loop p l rounds b best)
unfolding mixed_loop
mixed_loop-IsCurrent p l zero b best h = h
mixed_loop-IsCurrent p l (suc k) b best h =
    mixed_loop-IsCurrent p l k (suc b) _ (try_mixed-IsCurrent p l b best h)

mixed_loop-NoWorse :
    (p l rounds b : ℕ) (best : Best)
    → NoWorse
        (mixed_loop p l rounds b best).total
        (mixed_loop p l rounds b best).bad
        best.total
        best.bad
unfolding mixed_loop
mixed_loop-NoWorse p l zero b best = inr (refl, omega arith)
mixed_loop-NoWorse p l (suc k) b best =
    omega
      (arith, mixed_loop-NoWorse p l k (suc b) (try_mixed p l b best), try_mixed-NoWorse p l b best)

-- the candidate that the loop looks at first
mixed_loop-NoWorse_first :
    (p l rounds b : ℕ) (best : Best)
    → NoWorse
        (mixed_loop p l (suc rounds) b best).total
        (mixed_loop p l (suc rounds) b best).bad
        (mixed_total p l b)
        (mixed_bad p l b)
unfolding mixed_loop
mixed_loop-NoWorse_first p l n b best = omega (
  arith,
  mixed_loop-NoWorse p l n (suc b) (try_mixed p l b best),
  try_mixed-NoWorse_candidate p l b best,
)

mixed_loop-NoWorse_candidate :
    (p l rounds b : ℕ) (best : Best) (c : ℕ)
    → b ≤ c
    → c < b + rounds
    → NoWorse
        (mixed_loop p l rounds b best).total
        (mixed_loop p l rounds b best).bad
        (mixed_total p l c)
        (mixed_bad p l c)
unfolding mixed_loop
mixed_loop-NoWorse_candidate p l zero b best c h k = absurd (omega arith)
mixed_loop-NoWorse_candidate p l (suc n) b best c h k = elim (ℕ_discrete b c) [
  | yes same ↦ rw (← same) (mixed_loop-NoWorse_first p l n b best)
  | no other ↦
      mixed_loop-NoWorse_candidate p l n (suc b) (try_mixed p l b best) c (omega arith)
        (omega arith)
]

abbrev start : ℕ → ℕ → Best
start p l = record { total = p + l; bad = p + l; b = 0 }

mixed_total-le : (p l : ℕ) → mixed_total p l 0 ≤ p + l
unfolding mixed_total portrait_page_count landscape_page_count
mixed_total-le p l = ground arith

mixed_bad-le : (p l : ℕ) → mixed_bad p l 0 ≤ p + l
unfolding mixed_bad bad_page_count three_page_count
mixed_bad-le p l = ground arith

-- From the start on, the first round makes the variables describe a candidate.
try_mixed-IsCurrent_of_start : (p l : ℕ) → IsCurrent p l (try_mixed p l 0 (start p l))
unfolding try_mixed
try_mixed-IsCurrent_of_start p l = ground (arith, mixed_total-le p l, mixed_bad-le p l)

try_mixed-le : (p l b : ℕ) (best : Best) (m : ℕ) → b ≤ m → best.b ≤ m → (try_mixed p l b best).b ≤ m
unfolding try_mixed
try_mixed-le p l b best m h k = ground arith

mixed_loop-le :
    (p l rounds b : ℕ) (best : Best) (m : ℕ)
    → b + rounds ≤ m + 1
    → best.b ≤ m
    → (mixed_loop p l rounds b best).b ≤ m
unfolding mixed_loop
mixed_loop-le p l zero b best m h k = k
mixed_loop-le p l (suc n) b best m h k =
    mixed_loop-le p l n (suc b) (try_mixed p l b best) m (omega arith)
      (try_mixed-le p l b best m (omega arith) k)

abbrev last : ℕ → ℕ → Best
last p l = mixed_loop p l (min p (l / 2) + 1) 0 (start p l)

last-IsCurrent : (p l : ℕ) → IsCurrent p l (last p l)
unfolding mixed_loop
last-IsCurrent p l =
    let e : min p (l / 2) + 1 ≡ suc (min p (l / 2)) = omega arith in
    rw e (mixed_loop-IsCurrent p l (min p (l / 2)) 1 _ (try_mixed-IsCurrent_of_start p l))

-- The number of mixed pages that the search returns gives no more pages than any other number
-- that the portraits and landscapes allow, and among those with as many pages no more bad pages.
pub optimal_mixed_count-NoWorse :
    (p l b : ℕ)
    → b ≤ p
    → 2 * b ≤ l
    → NoWorse
        (mixed_total p l (optimal_mixed_count p l))
        (mixed_bad p l (optimal_mixed_count p l))
        (mixed_total p l b)
        (mixed_bad p l b)
unfolding optimal_mixed_count
optimal_mixed_count-NoWorse p l b h k =
    rw (← (last-IsCurrent p l).total, ← (last-IsCurrent p l).bad)
      (mixed_loop-NoWorse_candidate p l (min p (l / 2) + 1) 0 (start p l) b (omega arith)
        (omega arith))

-- The number found is one that the portraits and landscapes allow.
pub optimal_mixed_count-fits :
    (p l : ℕ) → (optimal_mixed_count p l ≤ p) × (2 * optimal_mixed_count p l ≤ l)
unfolding optimal_mixed_count
optimal_mixed_count-fits p l =
    let small =
      mixed_loop-le p l (min p (l / 2) + 1) 0 (start p l) (min p (l / 2)) (omega arith)
        (omega arith) in
    (omega arith, omega arith)
