-- ===== src/Routes/Answers.antt =====
-- The requests to the map service and what is made of its answers: `_fetch_matching`,
-- `_fetch_directions` and `_fetch_route_part` of backend/app/services/mapbox.py. A response is its
-- status and what its content parses to. The service, the choice of points for a request that is
-- too long, and the text of a status are arguments.
use wanderbound.Prelude.{
  ℕ, String, Bool, true, false, not, ◌&&◌, ◌||◌, ◌==◌, string_eq, nat_eq, Option, none, some, List,
  [], ◌∷◌, length, any, leb, ltb, if◌then◌else◌,
}
use wanderbound.Routes.{
  RouteMatchResult, TimedCoords, RoutePart, matching, directions, failed_with, no_route_with,
  matched_with,
}

-- the answer of a request, or the exception `MapboxTransientError`
pub data Fetched (Coord : Type 0) : Type 0 where
  answered : RouteMatchResult Coord → Fetched Coord
  transient_error : Fetched Coord

pub record HttpResponse (Coord : Type 0) : Type 0 where
  pub status_code : ℕ
  pub error_code : Option String
  pub code : String
  pub lines : List (List Coord)
  pub tracepoints : Option (List (Option ℕ))

unfoldable pub is_no_route_code : String → Bool
is_no_route_code code = code == "NoMatch" || code == "NoRoute" || code == "NoSegment"

unfoldable pub is_success : ℕ → Bool
is_success status_code = leb 200 status_code && ltb status_code 300

-- a tracepoint of another match than the first
unfoldable pub is_elsewhere : Option ℕ → Bool
is_elsewhere none = false
is_elsewhere (some matchings_index) = not (matchings_index == 0)

module _ {Coord : Type 0} where
  -- the points whose time is later than that of the one before
  unfoldable pub later_points : Option ℕ → TimedCoords Coord → TimedCoords Coord
  later_points last [] = []
  later_points last (point ∷ points) =
      let next = later_points (some point.1) points in
      let skipped = later_points last points in
      if elim last [ none ↦ true | some time ↦ ltb time point.1 ] then point ∷ next else skipped

  unfoldable pub checked_line : List Coord → RouteMatchResult Coord
  checked_line points =
      if ltb (length points) 2 then failed_with "invalid_geometry" else matched_with points

  -- The first line of a response, where the response is about the whole of the request.
  unfoldable pub first_line : String → Bool → List (List Coord) → RouteMatchResult Coord
  unfolding checked_line
  first_line missing is_whole [] = no_route_with missing
  first_line missing is_whole (line ∷ lines) =
      if is_whole then checked_line line else no_route_with "incomplete_match"

  unfoldable pub is_complete_match : HttpResponse Coord → ℕ → Bool
  unfolding is_elsewhere
  is_complete_match response requested = length response.lines == 1 && elim response.tracepoints [
    | none ↦ false
    | some tracepoints ↦ length tracepoints == requested && not (any is_elsewhere tracepoints)
  ]

  unfoldable pub parse_matching_response : HttpResponse Coord → ℕ → RouteMatchResult Coord
  unfolding is_no_route_code is_complete_match first_line
  parse_matching_response response requested =
      if not (response.code == "Ok")
      then if is_no_route_code response.code
        then no_route_with response.code
        else failed_with response.code
      else first_line "NoMatch" (is_complete_match response requested) response.lines

  unfoldable pub parse_directions_response : HttpResponse Coord → RouteMatchResult Coord
  unfolding is_no_route_code first_line
  parse_directions_response response =
      if is_no_route_code response.code
      then no_route_with response.code
      else if not (response.code == "Ok")
      then failed_with response.code
      else first_line "NoRoute" true response.lines

  module _ (http_code : ℕ → String) where
    unfoldable pub response_error : HttpResponse Coord → String
    response_error response = elim response.error_code [
      | none ↦ http_code response.status_code
      | some code ↦ code
    ]

    unfoldable pub http_failure : HttpResponse Coord → Fetched Coord
    unfolding response_error is_no_route_code
    http_failure response =
        if response.status_code == 429 || leb 500 response.status_code
        then transient_error
        else if is_no_route_code (response_error response)
        then answered (no_route_with (response_error response))
        else answered (failed_with (response_error response))

    module _ (reduce_coords : TimedCoords Coord → TimedCoords Coord)
        (get : String → RoutePart Coord → Option (HttpResponse Coord)) where
      unfoldable pub fetch_matching : String → TimedCoords Coord → Fetched Coord
      unfolding later_points http_failure is_success parse_matching_response
      fetch_matching profile points =
          let requested = later_points none (reduce_coords points) in
          if ltb (length requested) 2
          then answered (no_route_with "insufficient_timestamp_span")
          else elim (get profile (matching requested)) [
            | none ↦ transient_error
            | some response ↦
                if is_success response.status_code
                then answered (parse_matching_response response (length requested))
                else http_failure response
          ]

      unfoldable pub fetch_directions : String → TimedCoords Coord → Fetched Coord
      unfolding http_failure is_success parse_directions_response
      fetch_directions profile points = elim (get profile (directions points)) [
        | none ↦ transient_error
        | some response ↦
            if is_success response.status_code
            then answered (parse_directions_response response)
            else http_failure response
      ]

      unfoldable pub fetch_route_part : String → RoutePart Coord → Fetched Coord
      unfolding fetch_matching fetch_directions
      fetch_route_part profile (matching points) = fetch_matching profile points
      fetch_route_part profile (directions points) = fetch_directions profile points
