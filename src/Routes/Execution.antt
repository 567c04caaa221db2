-- ===== src/Routes/Execution.antt =====
-- The requests of one batch: `_execute_route_plan`, `_match_one` and `match_segments_with_stats` of
-- backend/app/services/mapbox.py. An exception of a request ends the whole batch, and is an argument
-- of the step that makes the requests.
use wanderbound.Prelude.{
  ℕ, zero, suc, ◌+◌, String, Bool, true, false, not, ◌||◌, ◌==◌, string_eq, Option, none, some,
  List, [], ◌∷◌, ◌++◌, map, length, take, drop, leb, ltb, is_empty, if◌then◌else◌,
}
use wanderbound.Routes.{
  RouteStatus, matched, no_route, failed, is_matched, is_failed, RouteMatchResult, RequestBudget,
  reserve, route_request_batch_target, full_budget, TimedCoords, RoutePart, failed_with,
  no_route_with, matched_with, plan_route,
}

unfoldable pub is_no_route : RouteStatus → Bool
is_no_route matched = false
is_no_route no_route = true
is_no_route failed = false

module _ {Coord : Type 0} where
  -- `next((result for result in window if …), None)`
  unfoldable pub first_with :
      (RouteStatus → Bool) → List (RouteMatchResult Coord) → Option (RouteMatchResult Coord)
  first_with test [] = none
  first_with test (result ∷ results) =
      if test result.status then some result else first_with test results

  -- the first failure of a window, or else its first segment without a route
  unfoldable pub window_error : List (RouteMatchResult Coord) → Option (RouteMatchResult Coord)
  unfolding first_with is_failed is_no_route
  window_error window = elim (first_with is_failed window) [
    | some result ↦ some result
    | none ↦ first_with is_no_route window
  ]

  -- The windows of the plan, one after another, up to one with an error; the fuel is the number of
  -- parts.
  unfoldable pub run_windows :
      (RoutePart Coord → RouteMatchResult Coord)
      → ℕ
      → List (RoutePart Coord)
      → List (RouteMatchResult Coord)
      → Option (RouteMatchResult Coord) × List (RouteMatchResult Coord)
  unfolding window_error
  run_windows answer zero plan results = (none, results)
  run_windows answer (suc fuel) [] results = (none, results)
  run_windows answer (suc fuel) (part ∷ plan) results =
      let window = map answer (take route_request_batch_target (part ∷ plan)) in
      let rest =
        run_windows answer fuel (drop route_request_batch_target (part ∷ plan))
          (results ++ window) in
      elim (window_error window) [ none ↦ rest | some result ↦ (some result, results) ]

  -- the joined lines, `none` when a part has none
  unfoldable pub join_routes : List Coord → List (RouteMatchResult Coord) → Option (List Coord)
  join_routes all_coords [] = some all_coords
  join_routes all_coords (result ∷ results) = elim result.route [
    | none ↦ none
    | some route ↦
        if is_empty route
        then none
        else join_routes (all_coords ++ (if is_empty all_coords then route else drop 1 route))
            results
  ]

  unfoldable pub joined_result : Option (List Coord) → RouteMatchResult Coord
  joined_result none = failed_with "invalid_geometry"
  joined_result (some coords) =
      if leb 2 (length coords) then matched_with coords else failed_with "invalid_geometry"

  unfoldable pub execute_route_plan :
      (RoutePart Coord → RouteMatchResult Coord) → List (RoutePart Coord) → RouteMatchResult Coord
  unfolding run_windows join_routes joined_result
  execute_route_plan answer plan =
      let ran = run_windows answer (length plan) plan [] in
      elim ran.0 [ some result ↦ result | none ↦ joined_result (join_routes [] ran.1) ]

  -- a result without a line is given on, and a line is simplified
  unfoldable pub simplified :
      (List Coord → List Coord) → RouteMatchResult Coord → RouteMatchResult Coord
  unfolding is_matched
  simplified simplify_route result = elim result.route [
    | none ↦ result
    | some route ↦
        if not (is_matched result.status) || is_empty route
        then result
        else matched_with (simplify_route route)
  ]

  unfoldable pub planning_failure : String → RouteMatchResult Coord
  planning_failure code =
      if code == "invalid_timestamps" || code == "unsupported_profile"
      then failed_with code
      else no_route_with code

  module _ (is_too_long : String → TimedCoords Coord → Bool)
      (simplify_route : TimedCoords Coord → List Coord → List Coord)
      (answer : String → RoutePart Coord → RouteMatchResult Coord) where
    -- the result, the budget that is left, and how often it was exceeded
    unfoldable pub match_one :
        RequestBudget → String → TimedCoords Coord → RouteMatchResult Coord × RequestBudget × ℕ
    unfolding plan_route planning_failure reserve execute_route_plan simplified
    match_one budget profile points =
        if ltb (length points) 2
        then (failed_with "insufficient_points", budget, 0)
        else let plan = plan_route is_too_long profile points in
          elim plan.1 [
            | some code ↦ (planning_failure code, budget, 0)
            | none ↦ elim (reserve budget (length plan.0)) [
              | none ↦ (no_route_with "request_budget_exceeded", budget, 1)
              | some left ↦ (
                simplified (simplify_route points) (execute_route_plan (answer profile) plan.0),
                left,
                0,
              )
            ]
          ]

    unfoldable pub match_pairs :
        RequestBudget → List (String × TimedCoords Coord) → List (RouteMatchResult Coord) × ℕ
    unfolding match_one
    match_pairs budget [] = ([], 0)
    match_pairs budget ((profile, points) ∷ pairs) =
        let first = match_one budget profile points in
        let rest = match_pairs first.1 pairs in (first.0 ∷ rest.0, first.2 + rest.1)

    -- The requests reserve their budget in the order of the pairs, before the first of them waits.
    unfoldable pub match_segments :
        Bool → List (String × TimedCoords Coord) → List (RouteMatchResult Coord) × ℕ
    unfolding match_pairs
    match_segments has_token pairs =
        if has_token
        then match_pairs full_budget pairs
        else (map (λ pair. failed_with "token_missing") pairs, 0)
