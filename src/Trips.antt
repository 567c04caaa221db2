-- ===== src/Trips.antt =====
-- How the rows of a trip are built: backend/app/logic/trip_processing.py, with the chapter that
-- `default_album_chapter` of backend/app/logic/chapters.py makes. Dates are day numbers and times
-- seconds. What other services compute for the steps, the distances and the calendar are arguments.
pub mod Ranges
pub mod Waters
pub mod Zones
pub mod Album
use wanderbound.Prelude.{
  ℕ, zero, suc, ◌+◌, max, String, Bool, true, false, not, ◌&&◌, ◌||◌, ◌==◌, string_eq, nat_eq,
  Option, none, some, List, [], ◌∷◌, ◌++◌, map, filter, contains, leb, ltb, if◌then◌else◌,
}
use wanderbound.Prelude.Sorting.{sorted}
use wanderbound.Chapters.{Chapter}

-- the order of pairs of dates
unfoldable pub range_le : ℕ × ℕ → ℕ × ℕ → Bool
range_le (a, b) (c, d) = ltb a c || a == c && leb b d

-- the loop, from the range that is last in `merged`
unfoldable pub merge_from : ℕ → ℕ → List (ℕ × ℕ) → List (ℕ × ℕ)
merge_from prev_start prev_end [] = (prev_start, prev_end) ∷ []
merge_from prev_start prev_end ((start, end) ∷ ranges) =
    let joined = merge_from prev_start (max prev_end end) ranges in
    let apart = (prev_start, prev_end) ∷ merge_from start end ranges in
    if leb start prev_end then joined else apart

unfoldable pub merge_sorted : List (ℕ × ℕ) → List (ℕ × ℕ)
unfolding merge_from
merge_sorted [] = []
merge_sorted ((start, end) ∷ ranges) = merge_from start end ranges

unfoldable pub merge_date_ranges : List (ℕ × ℕ) → List (ℕ × ℕ)
unfolding merge_sorted range_le
merge_date_ranges ranges = merge_sorted (sorted range_le ranges)

pub data SegmentKind : Type 0 where
  hike : SegmentKind
  walking : SegmentKind
  driving : SegmentKind
  flight : SegmentKind

unfoldable pub kind_number : SegmentKind → ℕ
kind_number hike = 0
kind_number walking = 1
kind_number driving = 2
kind_number flight = 3

unfoldable pub is_kind : SegmentKind → SegmentKind → Bool
unfolding kind_number
is_kind a b = kind_number a == kind_number b

pub record Segment (Point : Type 0) : Type 0 where
  pub kind : SegmentKind
  pub timezone_id : String
  pub points : List Point

-- `daily_km[day] += km`
unfoldable pub add_day :
    {Distance : Type 0}
    → (Distance → Distance → Distance)
    → Distance
    → ℕ
    → Distance
    → List (ℕ × Distance)
    → List (ℕ × Distance)
add_day plus nothing day km [] = (day, plus nothing km) ∷ []
add_day plus nothing day km ((other, sum) ∷ days) =
    let rest = add_day plus nothing day km days in
    if day == other then (other, plus sum km) ∷ days else (other, sum) ∷ rest

unfoldable pub last_of : ℕ → List ℕ → ℕ
last_of day [] = day
last_of day (next ∷ days) = last_of next days

unfoldable pub hike_range : List ℕ → List (ℕ × ℕ)
unfolding last_of
hike_range [] = []
hike_range (day ∷ []) = []
hike_range (day ∷ next ∷ days) = (day, last_of next days) ∷ []

module _ {Point Distance : Type 0} (day_of : String → Point → ℕ)
    (haversine_km : Point → Point → Distance) (plus : Distance → Distance → Distance)
    (nothing : Distance) (is_active_day : Distance → Bool) where
  unfoldable pub daily_km : String → List (ℕ × Distance) → List Point → List (ℕ × Distance)
  unfolding add_day
  daily_km zone days [] = days
  daily_km zone days (point ∷ []) = days
  daily_km zone days (before ∷ point ∷ points) =
      daily_km zone (add_day plus nothing (day_of zone point) (haversine_km before point) days)
        (point ∷ points)

  unfoldable pub active_days : String → List Point → List ℕ
  unfolding daily_km
  active_days zone points = sorted leb (
      map (λ (day : ℕ × Distance). day.0)
        (filter (λ (day : ℕ × Distance). is_active_day day.1) (daily_km zone [] points)))

  unfoldable pub hike_ranges : List (Segment Point) → List (ℕ × ℕ)
  unfolding active_days hike_range is_kind
  hike_ranges [] = []
  hike_ranges (segment ∷ segments) =
      (if is_kind segment.kind hike
        then hike_range (active_days segment.timezone_id segment.points)
        else [])
      ++ hike_ranges segments

  unfoldable pub multi_day_hike_ranges : List (Segment Point) → List (ℕ × ℕ)
  unfolding hike_ranges merge_date_ranges
  multi_day_hike_ranges segments = merge_date_ranges (hike_ranges segments)

-- The country codes of the steps, and the warnings: how many steps at sea are given which country
-- before a step in which other one.
unfoldable pub resolve_waters :
    Option String → ℕ → List String → List String × List (ℕ × String × String)
resolve_waters prev run [] = ([], [])
resolve_waters none run (code ∷ codes) =
    let sea = resolve_waters none run codes in
    let land = resolve_waters (some code) 0 codes in
    if code == "00" then (code ∷ sea.0, sea.1) else (code ∷ land.0, land.1)
resolve_waters (some prev) run (code ∷ codes) =
    let sea = resolve_waters (some prev) (suc run) codes in
    let land = resolve_waters (some code) 0 codes in
    if code == "00" then (prev ∷ sea.0, sea.1) else (
      code ∷ land.0,
      if ltb 0 run && not (code == prev) then (run, prev, code) ∷ land.1 else land.1,
    )

unfoldable pub resolve_international_waters : List String → List String × List (ℕ × String × String)
unfolding resolve_waters
resolve_international_waters codes = resolve_waters none 0 codes

pub record PsStep : Type 0 where
  pub id : ℕ
  pub timestamp : ℕ
  pub timezone_id : String

unfoldable pub best_step : ℕ → PsStep → List PsStep → PsStep
best_step seg_start best [] = best
best_step seg_start best (step ∷ steps) =
    let later = best_step seg_start step steps in
    if leb step.timestamp seg_start then later else best

-- There is a first step, whose index the code takes.
unfoldable pub segment_timezone : ℕ → PsStep → List PsStep → String
unfolding best_step
segment_timezone seg_start first steps = (best_step seg_start first (first ∷ steps)).timezone_id

unfoldable pub default_album_chapter : String → String → List ℕ → String → Chapter
default_album_chapter title subtitle step_ids cover = record {
  id = "chapter-1";
  title = title;
  subtitle = subtitle;
  step_ids = step_ids;
  front_cover_photo = cover;
  back_cover_photo = cover;
}

-- the media of the layouts, each name once
unfoldable pub merge_layout : List String → List String → List String × List String
merge_layout seen [] = ([], seen)
merge_layout seen (name ∷ names) =
    let known = merge_layout seen names in
    let met = merge_layout (name ∷ seen) names in
    if contains seen name then known else (name ∷ met.0, met.1)

unfoldable pub merge_media : List String → List (Option (List String)) → List String
unfolding merge_layout
merge_media seen [] = []
merge_media seen (none ∷ layouts) = merge_media seen layouts
merge_media seen (some names ∷ layouts) =
    let merged = merge_layout seen names in merged.0 ++ merge_media merged.1 layouts
