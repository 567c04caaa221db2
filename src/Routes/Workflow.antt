-- ===== src/Routes/Workflow.antt =====
-- The workflow that enriches an album batch after batch: `album_route_enrichment_workflow` of
-- backend/app/logic/segment_routes.py with its steps.
use wanderbound.Prelude.{
  ℕ, zero, suc, ◌+◌, String, Bool, ◌==◌, nat_eq, Eq, Option, none, some, List, map, is_empty,
  if◌then◌else◌,
}
use wanderbound.Routes.{
  RouteMatchResult, TimedCoords, RoutePart, requests_of, route_request_batch, full_budget,
}
use wanderbound.Routes.Execution.{match_segments}
use wanderbound.Routes.Enrichment.{
  SegmentRow, SegmentKey, SegmentSnapshot, unmatched_snapshots, snapshots_for_keys, write_results,
  mark_failed,
}

-- What the world answers in each round. An exception leaves the rows as they are, and the failure may
-- fail to be recorded.
pub record World (Coord : Type 0) : Type 0 where
  pub is_too_long : String → TimedCoords Coord → Bool
  pub simplify_route : TimedCoords Coord → List Coord → List Coord
  pub answer : ℕ → String → RoutePart Coord → RouteMatchResult Coord
  pub has_token : Bool
  pub lock_free : ℕ → Bool
  pub raises : ℕ → Option String
  pub mark_fails : ℕ → Bool

-- how the workflow ends: without a failure, since all is recorded or another run has the lock, after
-- some failures, or with an exception, of which `no_batch` and `over_budget` are its own
pub data RunEnd : Type 0 where
  finished : RunEnd
  failures : ℕ → RunEnd
  exception : String → RunEnd
  no_batch : RunEnd
  over_budget : RunEnd
  out_of_fuel : RunEnd

unfoldable pub with_failures : RunEnd → ℕ → RunEnd
with_failures ended failed = if failed == 0 then ended else failures failed

module _ {Coord : Type 0} ⦃e : Eq (Coord × ℕ)⦄ where
  unfoldable pub plan_batch : World Coord → List (SegmentRow Coord) → List SegmentKey
  unfolding requests_of route_request_batch unmatched_snapshots
  plan_batch world rows =
      map (λ (snapshot : SegmentSnapshot Coord). snapshot.key)
        (route_request_batch
          (λ (snapshot : SegmentSnapshot Coord).
            requests_of world.is_too_long snapshot.profile snapshot.coords)
          full_budget (unmatched_snapshots rows))

  -- the rows, the failures, and how often the budget was exceeded
  unfoldable pub enrich_routes :
      World Coord → ℕ → List (SegmentRow Coord) → List SegmentKey → List (SegmentRow Coord) × ℕ × ℕ
  unfolding snapshots_for_keys unmatched_snapshots match_segments write_results
  enrich_routes world round rows keys =
      let snapshots = snapshots_for_keys (unmatched_snapshots rows) keys in
      let results =
        match_segments world.is_too_long world.simplify_route (world.answer round) world.has_token (
          map (λ (snapshot : SegmentSnapshot Coord). (snapshot.profile, snapshot.coords))
            snapshots) in
      let written = write_results rows snapshots results.0 in (written.0, written.1, results.1)

  unfoldable pub album_route_enrichment :
      World Coord → ℕ → ℕ → List (SegmentRow Coord) → ℕ → List (SegmentRow Coord) × RunEnd
  unfolding plan_batch enrich_routes mark_failed snapshots_for_keys unmatched_snapshots
      with_failures
  album_route_enrichment world zero round rows failed = (rows, out_of_fuel)
  album_route_enrichment world (suc fuel) round rows failed =
      let keys = plan_batch world rows in
      let enriched = enrich_routes world round rows keys in
      let rest = album_route_enrichment world fuel (suc round) enriched.0 (failed + enriched.1) in
      if is_empty keys
      then if is_empty (unmatched_snapshots rows)
        then (rows, with_failures finished failed)
        else (rows, no_batch)
      else if world.lock_free round
      then elim (world.raises round) [
        | some code ↦ (
          if world.mark_fails round
              then rows
              else mark_failed rows (snapshots_for_keys (unmatched_snapshots rows) keys) code,
          exception code,
        )
        | none ↦ if enriched.2 == 0 then rest else (enriched.0, over_budget)
      ]
      else (rows, with_failures finished failed)
