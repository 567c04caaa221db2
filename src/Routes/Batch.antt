-- ===== src/Routes/Batch.antt =====
-- The batch that one round plans: it holds the first of the segments, the round reads it back as it
-- was planned, and it gets by with the budget.
use wanderbound.Prelude.{
  ℕ, ◌≢◌, ◌≡◌, refl, arith, Bool, true, false, not, ◌&&◌, string_eq, nat_eq, none, some, List, [],
  ◌∷◌, map, any, Bool-cases, Option-cases, inl, inr,
}
use wanderbound.Routes.{RequestBudget, reserve, route_request_batch, full_budget}
use wanderbound.Routes.Enrichment.{
  SegmentRow, SegmentKey, SegmentSnapshot, same_segment, is_candidate, snapshot_of,
  unmatched_snapshots, by_key, snapshots_for_keys,
}

pub reserve-full_budget : (n : ℕ) → reserve full_budget n ≢ none
unfolding reserve
reserve-full_budget n h = ground (arith, h)

pub reserve_nothing : (budget : RequestBudget) → reserve budget 0 ≡ some budget
unfolding reserve
reserve_nothing budget = ground arith

pub same_segment_refl : (key : SegmentKey) → same_segment key key ≡ true
unfolding same_segment
same_segment_refl key = ground arith

module _ {A : Type 0} (requests : A → ℕ) where
  pub route_request_batch_first :
      (x : A) (xs : List A)
      → (rest : List A) × (route_request_batch requests full_budget (x ∷ xs) ≡ x ∷ rest)
  unfolding route_request_batch
  route_request_batch_first x xs = elim (Option-cases (reserve full_budget (requests x))) [
    | inl h ↦ absurd (reserve-full_budget (requests x) h)
    | inr (left, h) ↦ (route_request_batch requests left xs, rw (route_request_batch, h) refl)
  ]

module _ {Coord : Type 0} where
  abbrev pub unique_keys : List (SegmentRow Coord) → Bool
  unique_keys [] = true
  unique_keys (row ∷ rows) =
      not (
        any
          (λ (other : SegmentRow Coord).
            same_segment (other.start_time, other.end_time) (row.start_time, row.end_time))
          rows)
      && unique_keys rows

  -- the key of each of the snapshots leads to it
  abbrev pub AllFound : List (SegmentSnapshot Coord) → List (SegmentSnapshot Coord) → Type 0
  AllFound known [] = Unit {0}
  AllFound known (snapshot ∷ snapshots) =
      (by_key known snapshot.key ≡ some snapshot) × AllFound known snapshots

  by_key-none :
      (rows : List (SegmentRow Coord)) (key : SegmentKey)
      → any (λ (other : SegmentRow Coord). same_segment (other.start_time, other.end_time) key) rows
        ≡ false
      → by_key (unmatched_snapshots rows) key ≡ none
  unfolding by_key unmatched_snapshots snapshot_of
  by_key-none [] key h = refl
  by_key-none (row ∷ rows) key h = ground (arith, h, by_key-none rows key (ground (arith, h)))

  AllFound-later :
      (snapshot : SegmentSnapshot Coord) (known snapshots : List (SegmentSnapshot Coord))
      → AllFound known snapshots
      → AllFound (snapshot ∷ known) snapshots
  unfolding by_key
  AllFound-later snapshot known [] found = tt
  AllFound-later snapshot known (first ∷ rest) found =
      (rw (found.0) refl, AllFound-later snapshot known rest found.1)

  pub AllFound-unmatched_snapshots :
      (rows : List (SegmentRow Coord))
      → unique_keys rows ≡ true
      → AllFound (unmatched_snapshots rows) (unmatched_snapshots rows)
  unfolding unmatched_snapshots snapshot_of by_key
  AllFound-unmatched_snapshots [] h = tt
  AllFound-unmatched_snapshots (row ∷ rows) h =
      let found = AllFound-unmatched_snapshots rows (ground (arith, h)) in
      elim (Bool-cases (is_candidate row)) [
        | inr other ↦ rw other found
        | inl candidate ↦ rw candidate (
          rw
              (
                by_key-none rows (row.start_time, row.end_time) (ground (arith, h)),
                same_segment_refl (row.start_time, row.end_time),
              )
              refl,
          AllFound-later (snapshot_of row) (unmatched_snapshots rows) (unmatched_snapshots rows)
              found,
        )
      ]

  module _ (requests : SegmentSnapshot Coord → ℕ) where
    pub AllFound-route_request_batch :
        (budget : RequestBudget) (known snapshots : List (SegmentSnapshot Coord))
        → AllFound known snapshots
        → AllFound known (route_request_batch requests budget snapshots)
    unfolding route_request_batch
    AllFound-route_request_batch budget known [] found = tt
    AllFound-route_request_batch budget known (first ∷ rest) found =
        elim (Option-cases (reserve budget (requests first))) [
          | inl h ↦
              rw (route_request_batch, h) (AllFound-route_request_batch budget known rest found.1)
          | inr (left, h) ↦
              rw (route_request_batch, h)
                (found.0, AllFound-route_request_batch left known rest found.1)
        ]

  pub snapshots_for_keys-AllFound :
      (known snapshots : List (SegmentSnapshot Coord))
      → AllFound known snapshots
      → snapshots_for_keys known (map (λ (s : SegmentSnapshot Coord). s.key) snapshots) ≡ snapshots
  unfolding snapshots_for_keys
  snapshots_for_keys-AllFound known [] found = refl
  snapshots_for_keys-AllFound known (first ∷ rest) found =
      rw (map, snapshots_for_keys, found.0, snapshots_for_keys-AllFound known rest found.1) refl
