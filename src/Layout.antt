-- ===== src/Layout.antt =====
-- The page builder of backend/app/logic/layout/builder.py: how many pages a mix of portraits and
-- landscapes takes, and the pages themselves. `A` is the type of a media name.
-- `ceil(n / k)` is written `(n + (k - 1)) / k`, which it equals while n / k is exact enough in a
-- double, that is for every list that fits in memory.
pub mod Mixed
pub mod Batches
mod Landscapes
mod Triples
pub mod Pages
pub mod Shapes
pub mod Printable
pub mod Step
use wanderbound.Prelude.{
  ℕ, zero, suc, ◌+◌, ◌-◌, ◌*◌, ◌/◌, ◌%◌, min, ◌&&◌, ◌||◌, not, Option, none, some, List, [], ◌∷◌,
  ◌++◌, map, ltb, leb, nat_beq, if◌then◌else◌, length, get_elem?, take, drop,
}
use wanderbound.Prelude.Maybe.{◌>>=◌}

unfoldable pub portrait_page_count : ℕ → ℕ
portrait_page_count n = (n + 2) / 3

unfoldable pub landscape_page_count : ℕ → ℕ
landscape_page_count n = if nat_beq n 2 then 2 else (n + 3) / 4

-- Python's `-n % 4`
unfoldable pub three_page_count : ℕ → ℕ
three_page_count n = (4 - n % 4) % 4

unfoldable pub bad_page_count : ℕ → ℕ → ℕ
bad_page_count p l =
    let lonely_p : ℕ = if ltb 0 p && nat_beq (p % 3) 1 then 1 else 0 in
    let three_l : ℕ = if leb 3 l && not (nat_beq l 5) then three_page_count l else 0 in
    lonely_p + three_l

-- The three variables that the search loop updates.
pub record Best : Type 0 where
  pub total : ℕ
  pub bad : ℕ
  pub b : ℕ

-- `total` and `bad` of one candidate b
unfoldable pub mixed_total : ℕ → ℕ → ℕ → ℕ
mixed_total p l b = b + portrait_page_count (p - b) + landscape_page_count (l - 2 * b)

unfoldable pub mixed_bad : ℕ → ℕ → ℕ → ℕ
mixed_bad p l b = bad_page_count (p - b) (l - 2 * b)

unfoldable pub try_mixed : ℕ → ℕ → ℕ → Best → Best
try_mixed p l b best =
    let total : ℕ = mixed_total p l b in
    let bad : ℕ = mixed_bad p l b in
    if ltb total best.total || (nat_beq total best.total && ltb bad best.bad)
    then record { total = total; bad = bad; b = b }
    else best

-- `for b in range(start, start + rounds)`
unfoldable pub mixed_loop : ℕ → ℕ → ℕ → ℕ → Best → Best
mixed_loop p l zero b best = best
mixed_loop p l (suc rounds) b best = mixed_loop p l rounds (suc b) (try_mixed p l b best)

unfoldable pub optimal_mixed_count : ℕ → ℕ → ℕ
optimal_mixed_count p l =
    (mixed_loop p l (min p (l / 2) + 1) 0 (record { total = p + l; bad = p + l; b = 0 })).b

module _ {ℓ} {A : Type ℓ} where
  -- `itertools.batched`: at most `fuel` batches; the length of the list is enough.
  unfoldable pub batched : ℕ → ℕ → List A → List (List A)
  batched zero size items = []
  batched (suc fuel) size [] = []
  batched (suc fuel) size (x ∷ items) =
      take size (x ∷ items) ∷ batched fuel size (drop size (x ∷ items))

  unfoldable pub pages_of : List A → ℕ → List (List A)
  unfolding batched
  pages_of items size = batched (length items) size items

  unfoldable pub landscape_pages : List A → List (List A)
  unfolding pages_of
  landscape_pages items =
      let n = length items in
      let cut = n - 3 * three_page_count n in
      if ltb n 3
      then map (λ p. p ∷ []) items
      else if nat_beq n 5
      then take 4 items ∷ drop 4 items ∷ []
      else pages_of (take cut items) 4 ++ pages_of (drop cut items) 3

  -- `[portraits[i], landscapes[2 * i], landscapes[2 * i + 1]]`; `none` is the IndexError.
  unfoldable pub mixed_page : List A → List A → ℕ → Option (List A)
  mixed_page portraits landscapes i = do
    p ← get_elem? portraits i
    a ← get_elem? landscapes (2 * i)
    b ← get_elem? landscapes (2 * i + 1)
    some (p ∷ a ∷ b ∷ [])

  -- `for i in range(start, start + rounds)`
  unfoldable pub mixed_pages : List A → List A → ℕ → ℕ → Option (List (List A))
  unfolding mixed_page
  mixed_pages portraits landscapes zero i = some []
  mixed_pages portraits landscapes (suc rounds) i = do
    page ← mixed_page portraits landscapes i
    rest ← mixed_pages portraits landscapes rounds (suc i)
    some (page ∷ rest)

  unfoldable pub build_pages : List A → List A → Option (List (List A))
  unfolding pages_of landscape_pages mixed_pages
  build_pages portraits landscapes =
      let mixed = optimal_mixed_count (length portraits) (length landscapes) in
      do
        between ← mixed_pages portraits landscapes mixed 0
        some (
            pages_of (drop mixed portraits) 3
            ++ between
            ++ landscape_pages (drop (2 * mixed) landscapes))
