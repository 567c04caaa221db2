-- ===== src/Routes/Enrichment.antt =====
-- The routes of the segments of an album: backend/app/logic/segment_routes.py. A row is a segment
-- with the state of its enrichment, `none` when it has no such row, and the rows stand in the order
-- of their start. The album has one workflow at a time, and no other request changes its segments
-- meanwhile; the answers of the map service, its exceptions and the lock are those of each round.
use wanderbound.Prelude.{
  ℕ, ◌+◌, String, Bool, true, false, not, ◌&&◌, ◌||◌, ◌==◌, Eq, string_eq, nat_eq, Option, none,
  some, List, [], ◌∷◌, map, filter, length, is_empty, ltb, if◌then◌else◌,
}
use wanderbound.Routes.{
  RouteStatus, is_matched, is_failed, RouteMatchResult, TimedCoords, failed_with,
}

pub record SegmentRow (Coord : Type 0) : Type 0 where
  pub start_time : ℕ
  pub end_time : ℕ
  pub kind : String
  pub points : TimedCoords Coord
  pub route : Option (List Coord)
  pub state : Option (RouteStatus × Option String)

abbrev pub SegmentKey : Type 0
SegmentKey = ℕ × ℕ

pub record SegmentSnapshot (Coord : Type 0) : Type 0 where
  pub key : SegmentKey
  pub coords : TimedCoords Coord
  pub profile : String

unfoldable pub same_segment : SegmentKey → SegmentKey → Bool
same_segment a b = a.0 == b.0 && a.1 == b.1

module _ {Coord : Type 0} where
  unfoldable pub is_usable : Option (List Coord) → Bool
  is_usable none = false
  is_usable (some route) = not (ltb (length route) 2)

  unfoldable pub needs_route_enrichment : SegmentRow Coord → Bool
  unfolding is_usable is_matched
  needs_route_enrichment row =
      elim row.state [ none ↦ true | some state ↦ is_matched state.0 ] && not (is_usable row.route)

  unfoldable pub is_candidate : SegmentRow Coord → Bool
  unfolding needs_route_enrichment
  is_candidate row = (row.kind == "driving" || row.kind == "walking") && needs_route_enrichment row

  unfoldable pub snapshot_of : SegmentRow Coord → SegmentSnapshot Coord
  snapshot_of row = record {
    key = (row.start_time, row.end_time);
    coords = row.points;
    profile = row.kind;
  }

  unfoldable pub unmatched_snapshots : List (SegmentRow Coord) → List (SegmentSnapshot Coord)
  unfolding is_candidate snapshot_of
  unmatched_snapshots rows = map snapshot_of (filter is_candidate rows)

  -- `by_key[key]`, where a later snapshot takes the place of an earlier one
  unfoldable pub by_key : List (SegmentSnapshot Coord) → SegmentKey → Option (SegmentSnapshot Coord)
  unfolding same_segment
  by_key [] key = none
  by_key (snapshot ∷ snapshots) key = elim (by_key snapshots key) [
    | some later ↦ some later
    | none ↦ if same_segment snapshot.key key then some snapshot else none
  ]

  unfoldable pub snapshots_for_keys :
      List (SegmentSnapshot Coord) → List SegmentKey → List (SegmentSnapshot Coord)
  unfolding by_key
  snapshots_for_keys snapshots [] = []
  snapshots_for_keys snapshots (key ∷ keys) =
      let rest = snapshots_for_keys snapshots keys in
      elim (by_key snapshots key) [ none ↦ rest | some snapshot ↦ snapshot ∷ rest ]

  -- a match without a line of two points is a failure
  unfoldable pub checked : RouteMatchResult Coord → RouteMatchResult Coord
  unfolding is_matched is_usable
  checked result =
      if is_matched result.status && not (is_usable result.route)
      then failed_with "invalid_geometry"
      else result

  unfoldable pub is_exceeded : RouteMatchResult Coord → Bool
  is_exceeded result = elim result.error_code [
    | none ↦ false
    | some code ↦ code == "request_budget_exceeded"
  ]

  -- `matched and not route`
  unfoldable pub without_line : RouteMatchResult Coord → RouteMatchResult Coord
  unfolding is_matched
  without_line result =
      if is_matched result.status && elim result.route [ none ↦ true | some route ↦ is_empty route ]
      then failed_with "invalid_geometry"
      else result

  -- the rows, and the number of failures
  module _ ⦃e : Eq (Coord × ℕ)⦄ where
    unfoldable pub same_points : TimedCoords Coord → TimedCoords Coord → Bool
    same_points [] [] = true
    same_points [] (b ∷ bs) = false
    same_points (a ∷ rest) [] = false
    same_points (a ∷ rest) (b ∷ bs) = a == b && same_points rest bs

    unfoldable pub is_current : SegmentSnapshot Coord → SegmentRow Coord → Bool
    unfolding same_segment same_points needs_route_enrichment
    is_current snapshot row =
        same_segment (row.start_time, row.end_time) snapshot.key
        && row.kind == snapshot.profile
        && same_points row.points snapshot.coords
        && needs_route_enrichment row

    unfoldable pub write_row :
        SegmentSnapshot Coord → RouteMatchResult Coord → SegmentRow Coord → SegmentRow Coord
    unfolding is_current is_matched
    write_row snapshot result row =
        if is_current snapshot row
        then record row {
          route = if is_matched result.status then result.route else none;
          state = some (result.status, result.error_code);
        }
        else row

    unfoldable pub write_outcome :
        List (SegmentRow Coord)
        → SegmentSnapshot Coord
        → RouteMatchResult Coord
        → List (SegmentRow Coord)
    unfolding write_row checked
    write_outcome rows snapshot result = map (write_row snapshot (checked result)) rows

    unfoldable pub write_results :
        List (SegmentRow Coord)
        → List (SegmentSnapshot Coord)
        → List (RouteMatchResult Coord)
        → List (SegmentRow Coord) × ℕ
    unfolding is_exceeded without_line write_outcome is_failed
    write_results rows [] results = (rows, 0)
    write_results rows (snapshot ∷ snapshots) [] = (rows, 0)
    write_results rows (snapshot ∷ snapshots) (result ∷ results) =
        let skipped = write_results rows snapshots results in
        let outcome = without_line result in
        let written = write_results (write_outcome rows snapshot outcome) snapshots results in
        if is_exceeded result
        then skipped
        else (written.0, (if is_failed outcome.status then 1 else 0) + written.1)

    unfoldable pub mark_failed :
        List (SegmentRow Coord) → List (SegmentSnapshot Coord) → String → List (SegmentRow Coord)
    unfolding write_outcome
    mark_failed rows [] code = rows
    mark_failed rows (snapshot ∷ snapshots) code =
        mark_failed (write_outcome rows snapshot (failed_with code)) snapshots code
