-- ===== src/Routes/Ending.antt =====
-- The workflow comes to an end: each batch takes at least one segment off those that are left.
use wanderbound.Prelude.{
  ℕ, ◌+◌, ◌≤◌, ◌<◌, ◌≡◌, refl, arith, Bool, true, false, not, ◌&&◌, Eq, eq_refl, string_eq, nat_eq,
  none, some, List, [], ◌∷◌, filter, any, Bool-cases, inl, inr, if◌then◌else◌,
}
use wanderbound.Routes.{is_matched, RouteMatchResult, TimedCoords}
use wanderbound.Routes.Enrichment.{
  SegmentRow, SegmentSnapshot, same_segment, is_usable, needs_route_enrichment, is_candidate,
  snapshot_of, unmatched_snapshots, same_points, is_current, checked, write_row, write_outcome,
  is_exceeded, without_line, write_results,
}

head_same : {A : Type 0} {a b : A} {xs ys : List A} → a ∷ xs ≡ b ∷ ys → a ≡ b
head_same e = cc

module _ {Coord : Type 0} ⦃e : Eq (Coord × ℕ)⦄ where
  -- how many segments are left
  abbrev pub pending : List (SegmentRow Coord) → ℕ
  pending [] = 0
  pending (row ∷ rows) = (if is_candidate row then 1 else 0) + pending rows

  same_points_refl : (points : TimedCoords Coord) → same_points points points ≡ true
  unfolding same_points
  same_points_refl [] = refl
  same_points_refl (point ∷ points) = rw (eq_refl point) (same_points_refl points)

  current-own :
      (row : SegmentRow Coord) → is_candidate row ≡ true → is_current (snapshot_of row) row ≡ true
  unfolding is_current snapshot_of same_segment is_candidate
  current-own row h = ground (arith, h, same_points_refl row.points, eq_refl row.kind)

  checked-usable :
      (result : RouteMatchResult Coord)
      → is_matched (checked result).status && not (is_usable (checked result).route) ≡ false
  unfolding checked is_matched
  checked-usable result =
      elim (Bool-cases (is_matched result.status && not (is_usable result.route))) [
        | inl h ↦ rw h refl
        | inr h ↦ rw h h
      ]

  written_state :
      (row : SegmentRow Coord) (result : RouteMatchResult Coord)
      → is_matched result.status && not (is_usable result.route) ≡ false
      → is_candidate (record row {
        route = if is_matched result.status then result.route else none;
        state = some (result.status, result.error_code);
      })
        ≡ false
  unfolding is_candidate needs_route_enrichment
  written_state row result h = ground (arith, h)

  write-done :
      (snapshot : SegmentSnapshot Coord) (result : RouteMatchResult Coord) (row : SegmentRow Coord)
      → is_current snapshot row ≡ true
      → is_candidate (write_row snapshot (checked result) row) ≡ false
  unfolding write_row
  write-done snapshot result row h =
      rw h (written_state row (checked result) (checked-usable result))

  write-kept :
      (snapshot : SegmentSnapshot Coord) (result : RouteMatchResult Coord) (row : SegmentRow Coord)
      → is_current snapshot row ≡ false
      → write_row snapshot result row ≡ row
  unfolding write_row
  write-kept snapshot result row h = rw (write_row, h) refl

  write-candidate :
      (snapshot : SegmentSnapshot Coord) (result : RouteMatchResult Coord) (row : SegmentRow Coord)
      → is_candidate (write_row snapshot (checked result) row)
        ≡ (is_candidate row && not (is_current snapshot row))
  write-candidate snapshot result row = elim (Bool-cases (is_current snapshot row)) [
    | inl h ↦ rw (write-done snapshot result row h, h) (ground arith)
    | inr h ↦ rw (write-kept snapshot (checked result) row h, h) (ground arith)
  ]

  write_outcome-pending :
      (rows : List (SegmentRow Coord)) (snapshot : SegmentSnapshot Coord)
      (result : RouteMatchResult Coord)
      → pending (write_outcome rows snapshot result) ≤ pending rows
  unfolding write_outcome
  write_outcome-pending [] snapshot result = omega arith
  write_outcome-pending (row ∷ rows) snapshot result =
      ground
        (arith, write-candidate snapshot result row, write_outcome-pending rows snapshot result)

  -- some row that is left is the one of the snapshot
  abbrev pub has_current : SegmentSnapshot Coord → List (SegmentRow Coord) → Bool
  has_current snapshot rows = any (λ row. is_candidate row && is_current snapshot row) rows

  write_outcome-fewer :
      (rows : List (SegmentRow Coord)) (snapshot : SegmentSnapshot Coord)
      (result : RouteMatchResult Coord)
      → has_current snapshot rows ≡ true
      → pending (write_outcome rows snapshot result) < pending rows
  unfolding write_outcome
  write_outcome-fewer [] snapshot result h = absurd (ground (arith, h))
  write_outcome-fewer (row ∷ rows) snapshot result h =
      elim (Bool-cases (is_candidate row && is_current snapshot row)) [
        | inl k ↦ ground (
          arith,
          k,
          write-candidate snapshot result row,
          write_outcome-pending rows snapshot result,
        )
        | inr k ↦ ground (
          arith,
          k,
          h,
          write-candidate snapshot result row,
          write_outcome-fewer rows snapshot result (ground (arith, k, h)),
        )
      ]

  write_results-pending :
      (rows : List (SegmentRow Coord)) (snapshots : List (SegmentSnapshot Coord))
      (results : List (RouteMatchResult Coord))
      → pending (write_results rows snapshots results).0 ≤ pending rows
  unfolding write_results
  write_results-pending rows [] results = omega arith
  write_results-pending rows (snapshot ∷ snapshots) [] = omega arith
  write_results-pending rows (snapshot ∷ snapshots) (result ∷ results) = ground (
    arith,
    write_results-pending rows snapshots results,
    write_outcome-pending rows snapshot (without_line result),
    write_results-pending (write_outcome rows snapshot (without_line result)) snapshots results,
  )

  pub write_results-fewer :
      (rows : List (SegmentRow Coord)) (snapshot : SegmentSnapshot Coord)
      (snapshots : List (SegmentSnapshot Coord)) (result : RouteMatchResult Coord)
      (results : List (RouteMatchResult Coord))
      → has_current snapshot rows ≡ true
      → is_exceeded result ≡ false
      → pending (write_results rows (snapshot ∷ snapshots) (result ∷ results)).0 < pending rows
  unfolding write_results
  write_results-fewer rows snapshot snapshots result results h k =
      rw (write_results, k)
        (omega (
          arith,
          write_outcome-fewer rows snapshot (without_line result) h,
          write_results-pending (write_outcome rows snapshot (without_line result)) snapshots
              results,
        ))

  pub first_unmatched :
      (rows : List (SegmentRow Coord)) (snapshot : SegmentSnapshot Coord)
      (snapshots : List (SegmentSnapshot Coord))
      → unmatched_snapshots rows ≡ snapshot ∷ snapshots
      → has_current snapshot rows ≡ true
  unfolding unmatched_snapshots
  first_unmatched [] snapshot snapshots h = absurd (ground (arith, h))
  first_unmatched (row ∷ rows) snapshot snapshots h = elim (Bool-cases (is_candidate row)) [
    | inl candidate ↦
        let own = head_same (rw (unmatched_snapshots, filter, candidate) at h) in
        ground (arith, candidate, rw own at (current-own row candidate))
    | inr other ↦ ground (
      arith,
      first_unmatched rows snapshot snapshots (rw (unmatched_snapshots, filter, other) at h),
    )
  ]
