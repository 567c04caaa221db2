-- ===== src/Routes/Budget.antt =====
-- A batch that was planned under a budget is executed within that budget.
use wanderbound.Prelude.{
  ◌≡◌, refl, arith, String, Bool, true, false, string_eq, nat_eq, some, List, [], ◌∷◌, map, length,
  ltb, Bool-cases, Option-cases, inl, inr,
}
use wanderbound.Operations.Lifecycle.{some-injective}
use wanderbound.Routes.{
  RequestBudget, reserve, TimedCoords, RoutePart, failed_with, RouteMatchResult, any_pair,
  matching_parts, plan_parts, plan_route, requests_of, route_request_batch, full_budget,
}
use wanderbound.Routes.Batch.{reserve_nothing, reserve-full_budget}
use wanderbound.Routes.Enrichment.{is_exceeded}
use wanderbound.Routes.Codes.{
  simplified-Told, execute_route_plan-Told, planning_failure-Told, plan_route-Told,
}
use wanderbound.Routes.Execution.{
  execute_route_plan, simplified, planning_failure, match_one, match_pairs, match_segments,
}

module _ {Coord : Type 0} (is_too_long : String → TimedCoords Coord → Bool)
    (simplify_route : TimedCoords Coord → List Coord → List Coord)
    (answer : String → RoutePart Coord → RouteMatchResult Coord)
    (told : (profile : String) (part : RoutePart Coord)
      → is_exceeded (answer profile part) ≡ false) where
  requests_of_short :
      (profile : String) (points : TimedCoords Coord)
      → ltb (length points) 2 ≡ true
      → requests_of is_too_long profile points ≡ 0
  unfolding requests_of plan_route any_pair plan_parts matching_parts
  requests_of_short profile [] h = ground arith
  requests_of_short profile (point ∷ []) h = ground arith
  requests_of_short profile (point ∷ next ∷ points) h = absurd (ground (arith, h))

  match_one-reserved :
      (budget left : RequestBudget) (profile : String) (points : TimedCoords Coord)
      → reserve budget (requests_of is_too_long profile points) ≡ some left
      → (result : RouteMatchResult Coord) × (match_one is_too_long simplify_route answer budget
            profile points
          ≡ (result, left, 0))
        × (is_exceeded result ≡ false)
  unfolding requests_of match_one is_exceeded
  match_one-reserved budget left profile points h = elim (Bool-cases (ltb (length points) 2)) [
    | inl short ↦
        let same =
          some-injective
            (rw (requests_of_short profile points short, reserve_nothing budget) at h) in
        (failed_with "insufficient_points", rw (match_one, short, same) refl, refl)
    | inr long ↦ elim (Option-cases (plan_route is_too_long profile points).1) [
      | inl fine ↦ (
        simplified (simplify_route points)
            (execute_route_plan (answer profile) (plan_route is_too_long profile points).0),
        rw (match_one, long, fine, rw (requests_of, fine) at h) refl,
        simplified-Told (simplify_route points)
            (execute_route_plan (answer profile) (plan_route is_too_long profile points).0)
            (execute_route_plan-Told (answer profile) (told profile)
              (plan_route is_too_long profile points).0),
      )
      | inr (code, wrong) ↦
          let same = some-injective (rw (requests_of, wrong, reserve_nothing budget) at h) in
          (
            planning_failure code,
            rw (match_one, long, wrong, same) refl,
            planning_failure-Told Coord code
                (plan_route-Told is_too_long profile points code wrong),
          )
    ]
  ]

  pub match_pairs_within :
      {A : Type 0} (pair_of : A → String × TimedCoords Coord) (budget : RequestBudget) (xs : List A)
      → (match_pairs is_too_long simplify_route answer budget (
          map pair_of (
            route_request_batch
              (λ x. requests_of is_too_long (pair_of x).0 (pair_of x).1)
              budget
              xs))).1
        ≡ 0
  unfolding match_pairs route_request_batch
  match_pairs_within pair_of budget [] = refl
  match_pairs_within pair_of budget (x ∷ xs) =
      elim (Option-cases (reserve budget (requests_of is_too_long (pair_of x).0 (pair_of x).1))) [
        | inl h ↦ rw (route_request_batch, h) (match_pairs_within pair_of budget xs)
        | inr (left, h) ↦
            let ran = (match_one-reserved budget left (pair_of x).0 (pair_of x).1 h).1 in
            rw (route_request_batch, h, map, match_pairs, ran)
              (omega (arith, match_pairs_within pair_of left xs))
      ]

  -- the pair that a full budget is first asked for has an answer
  pub match_segments_first :
      (has_token : Bool) (pair : String × TimedCoords Coord)
      (pairs : List (String × TimedCoords Coord))
      → (result : RouteMatchResult Coord) × (rest : List (RouteMatchResult Coord))
        × ((match_segments is_too_long simplify_route answer has_token (pair ∷ pairs)).0
            ≡ result ∷ rest)
        × (is_exceeded result ≡ false)
  unfolding match_segments match_pairs is_exceeded
  match_segments_first false pair pairs =
      (failed_with "token_missing", map (λ pair. failed_with "token_missing") pairs, refl, refl)
  match_segments_first true pair pairs =
      elim (Option-cases (reserve full_budget (requests_of is_too_long pair.0 pair.1))) [
        | inl h ↦ absurd (reserve-full_budget (requests_of is_too_long pair.0 pair.1) h)
        | inr (left, h) ↦
            let first = match_one-reserved full_budget left pair.0 pair.1 h in
            (
              first.0,
              (match_pairs is_too_long simplify_route answer left pairs).0,
              rw (match_pairs, first.1) refl,
              first.2,
            )
      ]

  pub match_segments_within :
      {A : Type 0} (pair_of : A → String × TimedCoords Coord) (has_token : Bool) (xs : List A)
      → (match_segments is_too_long simplify_route answer has_token (
          map pair_of (
            route_request_batch
              (λ x. requests_of is_too_long (pair_of x).0 (pair_of x).1)
              full_budget
              xs))).1
        ≡ 0
  unfolding match_segments
  match_segments_within pair_of false xs = refl
  match_segments_within pair_of true xs = match_pairs_within pair_of full_budget xs
