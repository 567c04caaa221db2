-- ===== src/Trips/Ranges.antt =====
-- The ranges of dates that are merged: `_merge_date_ranges`.
use wanderbound.Prelude.{
  ℕ, ◌+◌, ◌≡◌, ◌<◌, ◌≤◌, All, All-imp, refl, ◌∙◌, arith, Bool, true, false, ◌&&◌, ◌||◌, List, [],
  ◌∷◌, leb, Bool-cases, inl, inr, max, nat_eq,
}
use wanderbound.Prelude.Sorting.{sorted, insert_sorted, IsSorted, sorted-IsSorted}
use wanderbound.Trips.{range_le, merge_from, merge_sorted, merge_date_ranges}

-- some range has the day and the `more` days that follow it
abbrev pub covers : ℕ → List (ℕ × ℕ) → ℕ → Bool
covers more [] day = false
covers more ((start, end) ∷ ranges) day =
    leb start day && leb (day + more) end || covers more ranges day

-- each range ends before the next one starts
abbrev pub IsSeparated : List (ℕ × ℕ) → Type 0
IsSeparated [] = Unit
IsSeparated (range ∷ []) = Unit
IsSeparated (range ∷ next ∷ ranges) = (range.1 < next.0) × IsSeparated (next ∷ ranges)

abbrev StartAfter : ℕ → List (ℕ × ℕ) → Type 0
StartAfter day ranges = All (λ (range : ℕ × ℕ). day ≤ range.0) ranges

start_after :
    (range : ℕ × ℕ) (ranges : List (ℕ × ℕ))
    → All (λ next. range_le range next ≡ true) ranges
    → StartAfter range.0 ranges
unfolding range_le
start_after (start, end) ranges h =
    All-imp (λ next. range_le (start, end) next ≡ true) (λ (next : ℕ × ℕ). start ≤ next.0)
      (λ next k. ground (arith, k)) ranges h

covers-merge_from :
    (more prev_start prev_end : ℕ) (ranges : List (ℕ × ℕ)) (day : ℕ)
    → more ≤ 1
    → StartAfter prev_start ranges
    → IsSorted range_le ranges
    → covers more (merge_from prev_start prev_end ranges) day
      ≡ covers more ((prev_start, prev_end) ∷ ranges) day
unfolding merge_from
covers-merge_from more prev_start prev_end [] day few h k = refl
covers-merge_from more prev_start prev_end ((start, end) ∷ ranges) day few h k =
    elim (Bool-cases (leb start prev_end)) [
      | inl joins ↦ ground (
        arith,
        few,
        joins,
        h.0,
        covers-merge_from more prev_start (max prev_end end) ranges day few h.1 k.1,
      )
      | inr apart ↦ ground (
        arith,
        apart,
        covers-merge_from more start end ranges day few (start_after (start, end) ranges k.0) k.1,
      )
    ]

-- what is merged starts where its first range does
unfoldable StartsAt : ℕ → List (ℕ × ℕ) → Type 0
StartsAt day [] = ⊥
StartsAt day (range ∷ ranges) = day ≡ range.0

merge_from-StartsAt :
    (prev_start prev_end : ℕ) (ranges : List (ℕ × ℕ))
    → StartsAt prev_start (merge_from prev_start prev_end ranges)
unfolding merge_from StartsAt
merge_from-StartsAt prev_start prev_end [] = refl
merge_from-StartsAt prev_start prev_end ((start, end) ∷ ranges) =
    elim (Bool-cases (leb start prev_end)) [
      | inl joins ↦
          rw (merge_from, joins) (merge_from-StartsAt prev_start (max prev_end end) ranges)
      | inr apart ↦ rw (merge_from, apart) refl
    ]

IsSeparated-cons :
    (range : ℕ × ℕ) (day : ℕ) (ranges : List (ℕ × ℕ))
    → range.1 < day
    → StartsAt day ranges
    → IsSeparated ranges
    → IsSeparated (range ∷ ranges)
unfolding StartsAt
IsSeparated-cons range day [] h k l = tt
IsSeparated-cons range day (next ∷ ranges) h k l = (ground (arith, h, k), l)

merge_from-IsSeparated :
    (prev_start prev_end : ℕ) (ranges : List (ℕ × ℕ))
    → IsSeparated (merge_from prev_start prev_end ranges)
unfolding merge_from
merge_from-IsSeparated prev_start prev_end [] = tt
merge_from-IsSeparated prev_start prev_end ((start, end) ∷ ranges) =
    elim (Bool-cases (leb start prev_end)) [
      | inl joins ↦
          rw (merge_from, joins) (merge_from-IsSeparated prev_start (max prev_end end) ranges)
      | inr apart ↦
          rw (merge_from, apart)
            (IsSeparated-cons (prev_start, prev_end) start (merge_from start end ranges)
              (ground (arith, apart)) (merge_from-StartsAt start end ranges)
              (merge_from-IsSeparated start end ranges))
    ]

covers-insert_sorted :
    (more : ℕ) (range : ℕ × ℕ) (ranges : List (ℕ × ℕ)) (day : ℕ)
    → covers more (insert_sorted range_le range ranges) day ≡ covers more (range ∷ ranges) day
unfolding insert_sorted
covers-insert_sorted more range [] day = refl
covers-insert_sorted more range (next ∷ ranges) day = elim (Bool-cases (range_le range next)) [
  | inl before ↦ rw (insert_sorted, before) refl
  | inr behind ↦
      rw (insert_sorted, behind) (ground (arith, covers-insert_sorted more range ranges day))
]

covers-sorted :
    (more : ℕ) (ranges : List (ℕ × ℕ)) (day : ℕ)
    → covers more (sorted range_le ranges) day ≡ covers more ranges day
unfolding sorted
covers-sorted more [] day = refl
covers-sorted more (range ∷ ranges) day =
    covers-insert_sorted more range (sorted range_le ranges) day
    ∙ ground (arith, covers-sorted more ranges day)

range_le_total : (x y : ℕ × ℕ) → range_le x y ≡ false → range_le y x ≡ true
unfolding range_le
range_le_total (a, b) (c, d) h = ground (arith, h)

range_le_trans : (x y z : ℕ × ℕ) → range_le x y ≡ true → range_le y z ≡ true → range_le x z ≡ true
unfolding range_le
range_le_trans (a, b) (c, d) (e, f) h k = ground (arith, h, k)

covers-merge_sorted :
    (more : ℕ) (ranges : List (ℕ × ℕ)) (day : ℕ)
    → more ≤ 1
    → IsSorted range_le ranges
    → covers more (merge_sorted ranges) day ≡ covers more ranges day
unfolding merge_sorted
covers-merge_sorted more [] day few h = refl
covers-merge_sorted more ((start, end) ∷ ranges) day few h =
    covers-merge_from more start end ranges day few (start_after (start, end) ranges h.0) h.1

merge_sorted-IsSeparated : (ranges : List (ℕ × ℕ)) → IsSeparated (merge_sorted ranges)
unfolding merge_sorted
merge_sorted-IsSeparated [] = tt
merge_sorted-IsSeparated ((start, end) ∷ ranges) = merge_from-IsSeparated start end ranges

covers-merged :
    (more : ℕ) (ranges : List (ℕ × ℕ)) (day : ℕ)
    → more ≤ 1
    → covers more (merge_date_ranges ranges) day ≡ covers more ranges day
unfolding merge_date_ranges
covers-merged more ranges day few =
    covers-merge_sorted more (sorted range_le ranges) day few
      (sorted-IsSorted range_le range_le_total range_le_trans ranges)
    ∙ covers-sorted more ranges day

-- The merged ranges have the same days as the given ones, in whatever order and however they
-- overlap. A day and the next stand in one merged range exactly when they stand in one given range,
-- so that ranges that only follow each other on consecutive days are not merged. Each merged range
-- ends before the next one starts.
pub covers-merge_date_ranges :
    (ranges : List (ℕ × ℕ))
    → ((day : ℕ) → covers 0 (merge_date_ranges ranges) day ≡ covers 0 ranges day)
      × ((day : ℕ) → covers 1 (merge_date_ranges ranges) day ≡ covers 1 ranges day)
      × IsSeparated (merge_date_ranges ranges)
unfolding merge_date_ranges
covers-merge_date_ranges ranges = (
  λ day. covers-merged 0 ranges day (omega arith),
  λ day. covers-merged 1 ranges day (omega arith),
  merge_sorted-IsSeparated (sorted range_le ranges),
)
