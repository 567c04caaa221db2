-- ===== src/Routes/Sound.antt =====
-- What the workflow relies on in an answer of the map service.
use wanderbound.Prelude.{
  ℕ, ◌≡◌, refl, arith, String, Bool, true, false, not, ◌&&◌, ◌||◌, ◌==◌, string_eq, nat_eq, Option,
  none, some, List, [], ◌∷◌, length, leb, ltb, Bool-cases, Option-cases, inl, inr, if◌then◌else◌,
}
use wanderbound.Routes.{
  is_matched, RouteMatchResult, TimedCoords, RoutePart, matching, directions, failed_with,
  no_route_with,
}
use wanderbound.Routes.Codes.{is_other}
use wanderbound.Routes.Enrichment.{is_usable, is_exceeded}
use wanderbound.Routes.Answers.{
  Fetched, answered, transient_error, HttpResponse, is_no_route_code, is_success, later_points,
  checked_line, first_line, is_complete_match, parse_matching_response, parse_directions_response,
  response_error, http_failure, fetch_matching, fetch_directions, fetch_route_part,
}

module _ {Coord : Type 0} where
  -- an answer that is a match has a line of two points, and its code is not the budget's
  abbrev pub is_sound : RouteMatchResult Coord → Bool
  is_sound result =
      (not (is_matched result.status) || is_usable result.route) && not (is_exceeded result)

  abbrev pub is_sound_fetch : Fetched Coord → Bool
  is_sound_fetch (answered result) = is_sound result
  is_sound_fetch transient_error = true

  either_sound :
      (test : Bool) (a b : RouteMatchResult Coord)
      → is_sound a ≡ true
      → is_sound b ≡ true
      → is_sound (if test then a else b) ≡ true
  either_sound true a b h k = h
  either_sound false a b h k = k

  either_sound_fetch :
      (test : Bool) (a b : Fetched Coord)
      → is_sound_fetch a ≡ true
      → is_sound_fetch b ≡ true
      → is_sound_fetch (if test then a else b) ≡ true
  either_sound_fetch true a b h k = h
  either_sound_fetch false a b h k = k

  checked_line_sound : (line : List Coord) → is_sound (checked_line line) ≡ true
  unfolding checked_line is_matched is_usable is_exceeded
  checked_line_sound line = elim (Bool-cases (ltb (length line) 2)) [
    | inl short ↦ rw (checked_line, short) refl
    | inr long ↦ rw (checked_line, long) (ground (arith, long))
  ]

module _ (Coord : Type 0) where
  no_route_sound :
      (code : String) → is_other code ≡ true → is_sound {Coord = Coord} (no_route_with code) ≡ true
  unfolding is_matched is_exceeded
  no_route_sound code h = ground (arith, h)

  failed_sound :
      (code : String) → is_other code ≡ true → is_sound {Coord = Coord} (failed_with code) ≡ true
  unfolding is_matched is_exceeded
  failed_sound code h = ground (arith, h)

module _ {Coord : Type 0} where
  first_line_sound :
      (lines : List (List Coord)) (missing : String) (test : Bool)
      → is_other missing ≡ true
      → is_sound (first_line missing test lines) ≡ true
  unfolding first_line
  first_line_sound [] missing test h = no_route_sound Coord missing h
  first_line_sound (line ∷ rest) missing test h =
      either_sound test (checked_line line) (no_route_with "incomplete_match")
        (checked_line_sound line) (no_route_sound Coord "incomplete_match" refl)

  parse_matching_response_sound :
      (response : HttpResponse Coord) (requested : ℕ)
      → is_other response.code ≡ true
      → is_sound (parse_matching_response response requested) ≡ true
  unfolding parse_matching_response
  parse_matching_response_sound response requested h =
      either_sound (not (response.code == "Ok")) _ _
        (either_sound (is_no_route_code response.code) _ _ (no_route_sound Coord response.code h)
          (failed_sound Coord response.code h))
        (first_line_sound response.lines "NoMatch" (is_complete_match response requested) refl)

  parse_directions_response_sound :
      (response : HttpResponse Coord)
      → is_other response.code ≡ true
      → is_sound (parse_directions_response response) ≡ true
  unfolding parse_directions_response
  parse_directions_response_sound response h =
      either_sound (is_no_route_code response.code) _ _ (no_route_sound Coord response.code h) (
        either_sound (not (response.code == "Ok")) _ _ (failed_sound Coord response.code h)
          (first_line_sound response.lines "NoRoute" true refl))

  module _ (http_code : ℕ → String) where
    http_failure_sound :
        (response : HttpResponse Coord)
        → is_other (response_error http_code response) ≡ true
        → is_sound_fetch (http_failure http_code response) ≡ true
    unfolding http_failure
    http_failure_sound response h =
        either_sound_fetch (response.status_code == 429 || leb 500 response.status_code) _ _ refl (
          either_sound_fetch (is_no_route_code (response_error http_code response)) _ _
            (no_route_sound Coord (response_error http_code response) h)
            (failed_sound Coord (response_error http_code response) h))

    -- the codes of the response are not the one that stands for the budget
    abbrev pub IsTold : HttpResponse Coord → Type 0
    IsTold response =
        (is_other response.code ≡ true) × (is_other (response_error http_code response) ≡ true)

    module _ (reduce_coords : TimedCoords Coord → TimedCoords Coord)
        (get : String → RoutePart Coord → Option (HttpResponse Coord))
        (told : (profile : String) (part : RoutePart Coord) (response : HttpResponse Coord)
          → get profile part ≡ some response
          → IsTold response) where
      -- Whatever the service answers, with codes of its own: a part of a route that is matched has a
      -- line of at least two points, and no answer is taken for a request over the budget.
      pub fetch_route_part_sound :
          (profile : String) (part : RoutePart Coord)
          → is_sound_fetch (fetch_route_part http_code reduce_coords get profile part) ≡ true
      unfolding fetch_route_part fetch_matching fetch_directions
      fetch_route_part_sound profile (matching points) =
          let requested = later_points none (reduce_coords points) in
          elim (Option-cases (get profile (matching requested))) [
            | inl e ↦ rw e (
                either_sound_fetch (ltb (length requested) 2) _ _
                  (no_route_sound Coord "insufficient_timestamp_span" refl) refl)
            | inr (response, e) ↦
                let codes = told profile (matching requested) response e in
                rw e (
                  either_sound_fetch (ltb (length requested) 2) _ _
                    (no_route_sound Coord "insufficient_timestamp_span" refl)
                    (either_sound_fetch (is_success response.status_code) _ _
                      (parse_matching_response_sound response (length requested) codes.0)
                      (http_failure_sound response codes.1)))
          ]
      fetch_route_part_sound profile (directions points) =
          elim (Option-cases (get profile (directions points))) [
            | inl e ↦ rw (fetch_directions, e) refl
            | inr (response, e) ↦
                let codes = told profile (directions points) response e in
                rw (fetch_directions, e)
                  (either_sound_fetch (is_success response.status_code) _ _
                    (parse_directions_response_sound response codes.0)
                    (http_failure_sound response codes.1))
          ]
