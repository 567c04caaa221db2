-- ===== src/Tests/TripRuns.antt =====
-- Dates, countries and zones of small trips.
use wanderbound.Prelude.{ℕ, ◌≡◌, refl, String, none, some, List, [], ◌∷◌, nat_eq, string_eq}
use wanderbound.Prelude.Sorting.{sorted}
use wanderbound.Trips.{
  merge_date_ranges, resolve_international_waters, PsStep, segment_timezone, merge_media,
}
use wanderbound.Trips.Ranges.{covers, IsSeparated, covers-merge_date_ranges}

abbrev ranges : List (ℕ × ℕ)
ranges = (10, 12) ∷ (3, 5) ∷ (5, 8) ∷ (9, 9) ∷ []

merge-run : merge_date_ranges ranges ≡ (3, 8) ∷ (9, 9) ∷ (10, 12) ∷ []
unfolding merge_date_ranges sorted
merge-run = refl

covers-merge_date_ranges_example :
    ((day : ℕ) → covers 0 (merge_date_ranges ranges) day ≡ covers 0 ranges day)
    × ((day : ℕ) → covers 1 (merge_date_ranges ranges) day ≡ covers 1 ranges day)
    × IsSeparated (merge_date_ranges ranges)
covers-merge_date_ranges_example = covers-merge_date_ranges ranges

abbrev codes : List String
codes = "00" ∷ "it" ∷ "00" ∷ "00" ∷ "gr" ∷ []

waters-run :
    resolve_international_waters codes
    ≡ ("00" ∷ "it" ∷ "it" ∷ "it" ∷ "gr" ∷ [], (2, "it", "gr") ∷ [])
unfolding resolve_international_waters
waters-run = refl

abbrev step_at : ℕ → String → PsStep
step_at timestamp zone = record { id = timestamp; timestamp = timestamp; timezone_id = zone }

zone-run :
    segment_timezone 25 (step_at 10 "rome") (step_at 20 "athens" ∷ step_at 30 "cairo" ∷ [])
    ≡ "athens"
unfolding segment_timezone
zone-run = refl

media-run :
    merge_media [] (some ("a" ∷ "b" ∷ []) ∷ none ∷ some ("b" ∷ "c" ∷ []) ∷ [])
    ≡ "a" ∷ "b" ∷ "c" ∷ []
unfolding merge_media
media-run = refl
