-- ===== src/Tests/RouteRuns.antt =====
-- A drive of four fixes and a walk whose times do not grow, in an album of three segments.
use wanderbound.Prelude.{
  some, Option, subst, ℕ, ◌+◌, ◌≡◌, all, refl, arith, Bool, true, false, ◌&&◌, String, none, List,
  [], ◌∷◌, Eq, ◌==◌, nat_eq, ◌↔◌,
}
use wanderbound.Operations.Lifecycle.{some-injective}
use wanderbound.Routes.Answers.{HttpResponse, answered, response_error, fetch_route_part}
use wanderbound.Routes.Sound.{IsTold, is_sound_fetch, fetch_route_part_sound}
use wanderbound.Routes.{
  matching, matched_with, RoutePart, RouteMatchResult, TimedCoords, matching_parts,
  match_chunk_coords,
}
use wanderbound.Routes.Plan.{stitched, fits_request, matching_parts-stitched}
use wanderbound.Routes.Enrichment.{
  SegmentRow, is_exceeded, is_candidate, same_segment, needs_route_enrichment,
}
use wanderbound.Routes.Rounds.{is_outside, album_route_enrichment_ends}
use wanderbound.Routes.Workflow.{World, finished, failures, album_route_enrichment}

abbrev same_point : ℕ × ℕ → ℕ × ℕ → Bool
same_point a b = a.0 == b.0 && a.1 == b.1

cong_pair : {a b : ℕ × ℕ} → a.0 ≡ b.0 → a.1 ≡ b.1 → a ≡ b
cong_pair p q = λ i. (p i, q i)

same_point_iff : (a b : ℕ × ℕ) → (same_point a b ≡ true) ↔ (a ≡ b)
same_point_iff a b =
    (λ h. cong_pair (ground (arith, h)) (ground (arith, h)), λ e. rw e (ground arith))

instance abbrev point_eq : Eq (ℕ × ℕ)
point_eq = record { same = same_point; same_iff = same_point_iff }

abbrev drive : TimedCoords ℕ
drive = (0, 0) ∷ (1, 10) ∷ (2, 20) ∷ (3, 30) ∷ []

abbrev walk : TimedCoords ℕ
walk = (0, 50) ∷ (1, 50) ∷ (2, 60) ∷ []

abbrev segment : ℕ → String → TimedCoords ℕ → SegmentRow ℕ
segment start_time kind points = record {
  start_time = start_time;
  end_time = start_time + 1;
  kind = kind;
  points = points;
  route = none;
  state = none;
}

abbrev rows : List (SegmentRow ℕ)
rows = segment 0 "driving" drive ∷ segment 2 "flight" drive ∷ segment 4 "walking" walk ∷ []

abbrev answer : RoutePart ℕ → RouteMatchResult ℕ
answer part = matched_with (7 ∷ 8 ∷ [])

abbrev world : World ℕ
world = record {
  is_too_long = λ profile points. false;
  simplify_route = λ points route. route;
  answer = λ round profile part. answer part;
  has_token = true;
  lock_free = λ round. true;
  raises = λ round. none;
  mark_fails = λ round. false;
}

told :
    (round : ℕ) (profile : String) (part : RoutePart ℕ)
    → is_exceeded (world.answer round profile part) ≡ false
unfolding is_exceeded
told round profile part = refl

matching_parts-stitched_example :
    (stitched (matching_parts match_chunk_coords 4 drive) ≡ drive)
    × (all (fits_request match_chunk_coords) (matching_parts match_chunk_coords 4 drive) ≡ true)
matching_parts-stitched_example = matching_parts-stitched drive (omega arith)

album_route_enrichment_ends_example : is_outside (album_route_enrichment world 3 0 rows 0).1 ≡ true
unfolding is_candidate needs_route_enrichment same_segment
album_route_enrichment_ends_example =
    album_route_enrichment_ends world 3 0 rows 0 told refl (omega arith)

-- the walk is a failure
ended : (album_route_enrichment world 3 0 rows 0).1 ≡ failures 1
unfolding album_route_enrichment
ended = refl

finished_run : (album_route_enrichment world 3 0 (segment 0 "driving" drive ∷ []) 0).1 ≡ finished
unfolding album_route_enrichment
finished_run = refl

abbrev found : HttpResponse ℕ
found = record {
  status_code = 200;
  error_code = none;
  code = "Ok";
  lines = (7 ∷ 8 ∷ 9 ∷ []) ∷ [];
  tracepoints = some (some 0 ∷ none ∷ some 0 ∷ some 0 ∷ []);
}

abbrev http_code : ℕ → String
http_code status_code = "http"

abbrev get : String → RoutePart ℕ → Option (HttpResponse ℕ)
get profile part = some found

IsTold-found :
    (profile : String) (part : RoutePart ℕ) (response : HttpResponse ℕ)
    → get profile part ≡ some response
    → IsTold http_code response
unfolding response_error
IsTold-found profile part response e = subst (IsTold http_code) (some-injective e) (refl, refl)

fetch_route_part_sound_example :
    is_sound_fetch (fetch_route_part http_code (λ points. points) get "driving" (matching drive))
    ≡ true
fetch_route_part_sound_example =
    fetch_route_part_sound http_code (λ points. points) get IsTold-found "driving" (matching drive)

-- all fixes are sent, and the line of the match is the answer
fetched :
    fetch_route_part http_code (λ points. points) get "driving" (matching drive)
    ≡ answered (matched_with (7 ∷ 8 ∷ 9 ∷ []))
unfolding fetch_route_part
fetched = refl
