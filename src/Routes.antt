-- ===== src/Routes.antt =====
-- The requests for the routes of segments: the plan, the budget and the execution of
-- backend/app/services/mapbox.py. A point is a coordinate with its time in seconds. The answers of
-- the map service, the lengths of lines and the simplification of a route are arguments.
pub mod Execution
pub mod Plan
pub mod Enrichment
pub mod Workflow
pub mod Ending
pub mod Batch
pub mod Sound
pub mod Answers
pub mod Rounds
pub mod Codes
pub mod Budget
use wanderbound.Prelude.{
  ℕ, zero, suc, ◌+◌, ◌-◌, String, Bool, true, false, not, ◌&&◌, ◌||◌, ◌==◌, string_eq, nat_eq,
  Option, none, some, List, [], ◌∷◌, ◌++◌, map, length, take, drop, leb, ltb, if◌then◌else◌,
}

pub data RouteStatus : Type 0 where
  matched : RouteStatus
  no_route : RouteStatus
  failed : RouteStatus

unfoldable pub is_matched : RouteStatus → Bool
is_matched matched = true
is_matched no_route = false
is_matched failed = false

unfoldable pub is_failed : RouteStatus → Bool
is_failed matched = false
is_failed no_route = false
is_failed failed = true

pub record RouteMatchResult (Coord : Type 0) : Type 0 where
  pub status : RouteStatus
  pub route : Option (List Coord)
  pub error_code : Option String

pub record RequestBudget : Type 0 where
  pub remaining : ℕ
  pub used : ℕ

-- `none` when the requests are refused, which leaves the budget as it is. Requests that no budget
-- allows are let into an empty one.
unfoldable pub reserve : RequestBudget → ℕ → Option RequestBudget
reserve budget requests =
    if ltb budget.remaining requests
    then if not (budget.used == 0) || budget.remaining == 0
      then none
      else some (record { remaining = 0; used = requests })
    else some (record { remaining = budget.remaining - requests; used = budget.used + requests })

abbrev pub route_request_batch_target : ℕ
route_request_batch_target = 100

abbrev pub match_chunk_coords : ℕ
match_chunk_coords = 90

abbrev pub TimedCoords : Type 0 → Type 0
TimedCoords Coord = List (Coord × ℕ)

pub data RoutePart (Coord : Type 0) : Type 0 where
  matching : TimedCoords Coord → RoutePart Coord
  directions : TimedCoords Coord → RoutePart Coord

module _ {Coord : Type 0} where
  -- The codes are not longer than the 100 characters that are kept.
  abbrev pub failed_with : String → RouteMatchResult Coord
  failed_with code = record { status = failed; route = none; error_code = some code }

  abbrev pub no_route_with : String → RouteMatchResult Coord
  no_route_with code = record { status = no_route; route = none; error_code = some code }

  abbrev pub matched_with : List Coord → RouteMatchResult Coord
  matched_with route = record { status = matched; route = some route; error_code = none }

  -- some pair of neighbours
  unfoldable pub any_pair : (ℕ → ℕ → Bool) → TimedCoords Coord → Bool
  any_pair test [] = false
  any_pair test (point ∷ []) = false
  any_pair test (point ∷ next ∷ points) = test point.1 next.1 || any_pair test (next ∷ points)

  -- A part of `chunk` points ends with the point that the next one starts with. There are as many
  -- parts as points at most, which is the fuel.
  unfoldable pub matching_parts : ℕ → ℕ → TimedCoords Coord → List (RoutePart Coord)
  matching_parts chunk zero points = []
  matching_parts chunk (suc fuel) points =
      let rest = matching_parts chunk fuel (drop (chunk - 1) points) in
      if leb (length points) 1
      then []
      else if leb (length points) chunk
      then matching points ∷ []
      else matching (take chunk points) ∷ rest

  module _ (is_too_long : String → TimedCoords Coord → Bool) where
    -- `len(points) == 2`
    unfoldable pub plan_parts : String → TimedCoords Coord → List (RoutePart Coord) × Option String
    unfolding matching_parts
    plan_parts profile points =
        if length points == 2
        then if is_too_long profile points
          then ([], some "directions_distance_limit")
          else (directions points ∷ [], none)
        else (matching_parts match_chunk_coords (length points) points, none)

    unfoldable pub plan_route : String → TimedCoords Coord → List (RoutePart Coord) × Option String
    unfolding any_pair plan_parts
    plan_route profile points =
        if not (profile == "walking" || profile == "driving")
        then ([], some "unsupported_profile")
        else if any_pair (λ a b. leb b a) points
        then ([], some "invalid_timestamps")
        else if any_pair (λ a b. leb 14400 (b - a)) points
        then ([], some "discontinuous_trace")
        else plan_parts profile points

    -- A plan with an error needs no requests.
    unfoldable pub requests_of : String → TimedCoords Coord → ℕ
    unfolding plan_route
    requests_of profile points =
        let plan = plan_route profile points in elim plan.1 [ none ↦ length plan.0 | some code ↦ 0 ]

-- the pairs whose requests fit into one batch, by the number of requests of a pair
module _ {A : Type 0} (requests : A → ℕ) where
  unfoldable pub route_request_batch : RequestBudget → List A → List A
  unfolding reserve
  route_request_batch budget [] = []
  route_request_batch budget (pair ∷ pairs) = elim (reserve budget (requests pair)) [
    | none ↦ route_request_batch budget pairs
    | some left ↦ pair ∷ route_request_batch left pairs
  ]

abbrev pub full_budget : RequestBudget
full_budget = record { remaining = route_request_batch_target; used = 0 }
