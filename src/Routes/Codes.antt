-- ===== src/Routes/Codes.antt =====
-- The error codes: no result but that of a refused reservation says that the budget was exceeded.
use wanderbound.Prelude.{
  ℕ, zero, suc, ◌≡◌, refl, sym, arith, String, Bool, true, false, not, leb, ◌-◌, ◌||◌, ◌==◌,
  string_eq, nat_eq, Option, none, some, List, [], ◌∷◌, ◌++◌, map, length, take, drop, Bool-cases,
  Option-cases, inl, inr, if◌then◌else◌, all,
}
use wanderbound.Operations.Lifecycle.{some-injective}
use wanderbound.Routes.{
  RouteStatus, is_failed, RouteMatchResult, TimedCoords, RoutePart, any_pair, plan_parts,
  plan_route, directions, route_request_batch_target,
}
use wanderbound.Routes.Execution.{
  is_no_route, first_with, window_error, run_windows, join_routes, joined_result,
  execute_route_plan, simplified, planning_failure,
}
use wanderbound.Routes.Enrichment.{is_exceeded}

abbrev pub is_other : String → Bool
is_other code = not (code == "request_budget_exceeded")

module _ {A : Type 0} where
  guarded-Other :
      (test : Bool) (none_of : A) (error : String) (rest : A × Option String) (code : String)
      → is_other error ≡ true
      → (rest.1 ≡ some code → is_other code ≡ true)
      → (if test then (none_of, some error) else rest).1 ≡ some code
      → is_other code ≡ true
  guarded-Other true none_of error rest code h k e = rw (some-injective e) at h
  guarded-Other false none_of error rest code h k e = k e

module _ {Coord : Type 0} (is_too_long : String → TimedCoords Coord → Bool) where
  plan_parts-Other :
      (profile : String) (points : TimedCoords Coord) (code : String)
      → (plan_parts is_too_long profile points).1 ≡ some code
      → is_other code ≡ true
  unfolding plan_parts
  plan_parts-Other profile points code = elim (Bool-cases (length points == 2)) [
    | inl two ↦ rw two (
        guarded-Other (is_too_long profile points) [] "directions_distance_limit"
          (directions points ∷ [], none) code refl (λ e. absurd (ground (arith, e))))
    | inr more ↦ rw more (λ e. absurd (ground (arith, e)))
  ]

  pub plan_route-Told :
      (profile : String) (points : TimedCoords Coord) (code : String)
      → (plan_route is_too_long profile points).1 ≡ some code
      → is_other code ≡ true
  unfolding plan_route
  plan_route-Told profile points code =
      guarded-Other (not (profile == "walking" || profile == "driving")) [] "unsupported_profile" _
        code refl
        (guarded-Other (any_pair (λ a b. leb b a) points) [] "invalid_timestamps" _ code refl (
          guarded-Other (any_pair (λ a b. leb 14400 (b - a)) points) [] "discontinuous_trace" _ code
            refl (plan_parts-Other profile points code)))

pub planning_failure-Told :
    (Coord : Type 0) (code : String)
    → is_other code ≡ true
    → is_exceeded (planning_failure {Coord = Coord} code) ≡ false
unfolding planning_failure is_exceeded
planning_failure-Told Coord code h = ground (arith, h)

module _ {Coord : Type 0} where
  pub simplified-Told :
      (simplify_route : List Coord → List Coord) (result : RouteMatchResult Coord)
      → is_exceeded result ≡ false
      → is_exceeded (simplified simplify_route result) ≡ false
  unfolding simplified is_exceeded
  simplified-Told simplify_route result h = ground (arith, h)

  abbrev all_told : List (RouteMatchResult Coord) → Bool
  all_told = all (λ result. not (is_exceeded result))

  first_with-Told :
      (test : RouteStatus → Bool) (results : List (RouteMatchResult Coord))
      (result : RouteMatchResult Coord)
      → all_told results ≡ true
      → first_with test results ≡ some result
      → is_exceeded result ≡ false
  unfolding first_with
  first_with-Told test [] result h e = absurd (ground (arith, e))
  first_with-Told test (first ∷ results) result h e =
      ground (arith, h, e, first_with-Told test results result)

  window_error-Told :
      (window : List (RouteMatchResult Coord)) (result : RouteMatchResult Coord)
      → all_told window ≡ true
      → window_error window ≡ some result
      → is_exceeded result ≡ false
  unfolding window_error
  window_error-Told window result h e = ground (
    arith,
    e,
    first_with-Told is_failed window result h,
    first_with-Told is_no_route window result h,
  )

  module _ (answer : RoutePart Coord → RouteMatchResult Coord)
      (told : (part : RoutePart Coord) → is_exceeded (answer part) ≡ false) where
    answers_told : (plan : List (RoutePart Coord)) → all_told (map answer plan) ≡ true
    answers_told [] = refl
    answers_told (part ∷ plan) = rw (told part) (answers_told plan)

    run_windows-Told :
        (fuel : ℕ) (plan : List (RoutePart Coord)) (results : List (RouteMatchResult Coord))
        (result : RouteMatchResult Coord)
        → (run_windows answer fuel plan results).0 ≡ some result
        → is_exceeded result ≡ false
    unfolding run_windows
    run_windows-Told zero plan results result e = absurd (ground (arith, e))
    run_windows-Told (suc fuel) [] results result e = absurd (ground (arith, e))
    run_windows-Told (suc fuel) (part ∷ plan) results result e =
        let window = take route_request_batch_target (part ∷ plan) in
        elim (Option-cases (window_error (map answer window))) [
          | inl h ↦
              run_windows-Told fuel (drop route_request_batch_target (part ∷ plan))
                (results ++ map answer window) result (rw (run_windows, h) at e)
          | inr (wrong, h) ↦
              rw (sym (some-injective (rw (run_windows, h) at e)))
                (window_error-Told (map answer window) wrong (answers_told window) h)
        ]

    joined_result-Told : (line : Option (List Coord)) → is_exceeded (joined_result line) ≡ false
    unfolding joined_result is_exceeded
    joined_result-Told none = refl
    joined_result-Told (some coords) = ground arith

    pub execute_route_plan-Told :
        (plan : List (RoutePart Coord)) → is_exceeded (execute_route_plan answer plan) ≡ false
    unfolding execute_route_plan
    execute_route_plan-Told plan =
        elim (Option-cases (run_windows answer (length plan) plan []).0) [
          | inl h ↦
              rw (execute_route_plan, h)
                (joined_result-Told (join_routes [] (run_windows answer (length plan) plan []).1))
          | inr (result, h) ↦
              rw (execute_route_plan, h) (run_windows-Told (length plan) plan [] result h)
        ]
