-- ===== src/Routes/Rounds.antt =====
-- The rounds of the workflow, and how it ends.
use wanderbound.Prelude.{
  ℕ, zero, suc, ◌+◌, ◌<◌, ◌≡◌, refl, ◌∙◌, arith, String, Bool, true, false, Eq, nat_eq, List, [],
  ◌∷◌, map, any, is_empty, inl, inr, ◌⊎◌,
}
use wanderbound.Routes.{
  RouteMatchResult, TimedCoords, RoutePart, requests_of, route_request_batch, full_budget,
}
use wanderbound.Routes.Execution.{match_segments}
use wanderbound.Routes.Enrichment.{
  SegmentRow, SegmentKey, SegmentSnapshot, same_segment, unmatched_snapshots, snapshots_for_keys,
  write_row, write_outcome, write_results, is_exceeded, without_line,
}
use wanderbound.Routes.Batch.{
  unique_keys, AllFound-unmatched_snapshots, AllFound-route_request_batch,
  snapshots_for_keys-AllFound, route_request_batch_first,
}
use wanderbound.Routes.Budget.{match_segments_first, match_segments_within}
use wanderbound.Routes.Ending.{pending, write_results-fewer, first_unmatched}
use wanderbound.Routes.Workflow.{
  World, RunEnd, finished, failures, exception, no_batch, over_budget, out_of_fuel, with_failures,
  plan_batch, enrich_routes, album_route_enrichment,
}

-- the ends that the world can bring about
abbrev pub is_outside : RunEnd → Bool
is_outside finished = true
is_outside (failures n) = true
is_outside (exception code) = true
is_outside no_batch = false
is_outside over_budget = false
is_outside out_of_fuel = false

with_failures-Outside : (failed : ℕ) → is_outside (with_failures finished failed) ≡ true
unfolding with_failures
with_failures-Outside failed = ground arith

list_split : {A : Type 0} (xs : List A) → (xs ≡ []) ⊎ ((x : A) × (rest : List A) × (xs ≡ x ∷ rest))
list_split [] = inl refl
list_split (x ∷ rest) = inr (x, rest, refl)

module _ {Coord : Type 0} ⦃e : Eq (Coord × ℕ)⦄ where
  -- the answers of the map service do not have the code of the budget
  abbrev pub IsTold : World Coord → Type 0
  IsTold world =
      (round : ℕ) (profile : String) (part : RoutePart Coord)
      → is_exceeded (world.answer round profile part) ≡ false

  abbrev pair_of : SegmentSnapshot Coord → String × TimedCoords Coord
  pair_of snapshot = (snapshot.profile, snapshot.coords)

  abbrev batch_of : World Coord → List (SegmentRow Coord) → List (SegmentSnapshot Coord)
  batch_of world rows =
      route_request_batch
        (λ (s : SegmentSnapshot Coord). requests_of world.is_too_long s.profile s.coords)
        full_budget (unmatched_snapshots rows)

  snapshots-plan_batch :
      (world : World Coord) (rows : List (SegmentRow Coord))
      → unique_keys rows ≡ true
      → snapshots_for_keys (unmatched_snapshots rows) (plan_batch world rows) ≡ batch_of world rows
  unfolding plan_batch
  snapshots-plan_batch world rows h =
      snapshots_for_keys-AllFound (unmatched_snapshots rows) (batch_of world rows) (
        AllFound-route_request_batch
          (λ (s : SegmentSnapshot Coord). requests_of world.is_too_long s.profile s.coords)
          full_budget (unmatched_snapshots rows) (unmatched_snapshots rows)
          (AllFound-unmatched_snapshots rows h))

  round_within :
      (world : World Coord) (round : ℕ) (rows : List (SegmentRow Coord))
      → IsTold world
      → unique_keys rows ≡ true
      → (enrich_routes world round rows (plan_batch world rows)).2 ≡ 0
  unfolding enrich_routes
  round_within world round rows told h = rw (snapshots-plan_batch world rows h) (
      match_segments_within world.is_too_long world.simplify_route (world.answer round) (told round)
        pair_of world.has_token (unmatched_snapshots rows))

  round_fewer :
      (world : World Coord) (round : ℕ) (rows : List (SegmentRow Coord))
      (snapshot : SegmentSnapshot Coord) (snapshots : List (SegmentSnapshot Coord))
      → IsTold world
      → unique_keys rows ≡ true
      → unmatched_snapshots rows ≡ snapshot ∷ snapshots
      → pending (enrich_routes world round rows (plan_batch world rows)).0 < pending rows
  unfolding enrich_routes
  round_fewer world round rows snapshot snapshots told h some_left =
      let first =
        route_request_batch_first
          (λ (s : SegmentSnapshot Coord). requests_of world.is_too_long s.profile s.coords) snapshot
          snapshots in
      let answered =
        match_segments_first world.is_too_long world.simplify_route (world.answer round)
          (told round) world.has_token (pair_of snapshot) (map pair_of first.0) in
      rw (snapshots-plan_batch world rows h, some_left, first.1, answered.2)
        (write_results-fewer rows snapshot first.0 answered.0 answered.1
          (first_unmatched rows snapshot snapshots some_left) answered.3)

  any-write_outcome :
      (key : SegmentKey) (rows : List (SegmentRow Coord)) (snapshot : SegmentSnapshot Coord)
      (result : RouteMatchResult Coord)
      → any
          (λ (other : SegmentRow Coord). same_segment (other.start_time, other.end_time) key)
          (write_outcome rows snapshot result)
        ≡ any
            (λ (other : SegmentRow Coord). same_segment (other.start_time, other.end_time) key)
            rows
  unfolding write_outcome write_row
  any-write_outcome key [] snapshot result = refl
  any-write_outcome key (row ∷ rows) snapshot result =
      ground (arith, any-write_outcome key rows snapshot result)

  unique_keys-write_outcome :
      (rows : List (SegmentRow Coord)) (snapshot : SegmentSnapshot Coord)
      (result : RouteMatchResult Coord)
      → unique_keys (write_outcome rows snapshot result) ≡ unique_keys rows
  unfolding write_outcome write_row
  unique_keys-write_outcome [] snapshot result = refl
  unique_keys-write_outcome (row ∷ rows) snapshot result = ground (
    arith,
    unique_keys-write_outcome rows snapshot result,
    any-write_outcome (row.start_time, row.end_time) rows snapshot result,
  )

  unique_keys-write_results :
      (rows : List (SegmentRow Coord)) (snapshots : List (SegmentSnapshot Coord))
      (results : List (RouteMatchResult Coord))
      → unique_keys (write_results rows snapshots results).0 ≡ unique_keys rows
  unfolding write_results
  unique_keys-write_results rows [] results = refl
  unique_keys-write_results rows (snapshot ∷ snapshots) [] = refl
  unique_keys-write_results rows (snapshot ∷ snapshots) (result ∷ results) = ground (
    arith,
    unique_keys-write_results rows snapshots results,
    unique_keys-write_outcome rows snapshot (without_line result),
    unique_keys-write_results (write_outcome rows snapshot (without_line result)) snapshots results,
  )

  unique_keys-enrich_routes :
      (world : World Coord) (round : ℕ) (rows : List (SegmentRow Coord)) (keys : List SegmentKey)
      → unique_keys (enrich_routes world round rows keys).0 ≡ unique_keys rows
  unfolding enrich_routes
  unique_keys-enrich_routes world round rows keys =
      unique_keys-write_results rows (snapshots_for_keys (unmatched_snapshots rows) keys) (
        (match_segments world.is_too_long world.simplify_route (world.answer round) world.has_token
          (map pair_of (snapshots_for_keys (unmatched_snapshots rows) keys))).0)

  plan_batch-none :
      (world : World Coord) (rows : List (SegmentRow Coord))
      → unmatched_snapshots rows ≡ []
      → plan_batch world rows ≡ []
  unfolding plan_batch route_request_batch
  plan_batch-none world rows h = rw (plan_batch, h) refl

  plan_batch-some :
      (world : World Coord) (rows : List (SegmentRow Coord)) (snapshot : SegmentSnapshot Coord)
      (snapshots : List (SegmentSnapshot Coord))
      → unmatched_snapshots rows ≡ snapshot ∷ snapshots
      → is_empty (plan_batch world rows) ≡ false
  unfolding plan_batch
  plan_batch-some world rows snapshot snapshots h =
      let first =
        route_request_batch_first
          (λ (s : SegmentSnapshot Coord). requests_of world.is_too_long s.profile s.coords) snapshot
          snapshots in
      rw (plan_batch, h, first.1) refl

  -- Given at least one more round than there are segments left, the workflow is not stopped by the
  -- fuel, where the segments differ in their keys and no answer of the service has the code of the
  -- budget. No round is without a batch while segments are left, and none goes over the budget.
  pub album_route_enrichment_ends :
      (world : World Coord) (fuel round : ℕ) (rows : List (SegmentRow Coord)) (failed : ℕ)
      → IsTold world
      → unique_keys rows ≡ true
      → pending rows < fuel
      → is_outside (album_route_enrichment world fuel round rows failed).1 ≡ true
  unfolding album_route_enrichment
  album_route_enrichment_ends world zero round rows failed told h k = absurd (omega (arith, k))
  album_route_enrichment_ends world (suc fuel) round rows failed told h k =
      elim (list_split (unmatched_snapshots rows)) [
        | inl done ↦
            rw (album_route_enrichment, plan_batch-none world rows done, done)
              (ground (arith, with_failures-Outside failed))
        | inr (snapshot, snapshots, left) ↦
            let enriched = enrich_routes world round rows (plan_batch world rows) in
            let rest =
              album_route_enrichment_ends world fuel (suc round) enriched.0 (failed + enriched.1)
                told (unique_keys-enrich_routes world round rows (plan_batch world rows) ∙ h)
                (omega (arith, k, round_fewer world round rows snapshot snapshots told h left)) in
            rw (album_route_enrichment, plan_batch-some world rows snapshot snapshots left)
              (ground
                (arith, with_failures-Outside failed, rest, round_within world round rows told h))
      ]
