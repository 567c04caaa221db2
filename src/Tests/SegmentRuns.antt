-- ===== src/Tests/SegmentRuns.antt =====
-- A hike with an interruption, on a line.
use wanderbound.Prelude.{ℕ, ◌≡◌, ◌+◌, ◌-◌, refl, Bool, true, false, List, [], ◌∷◌, All, map}
use wanderbound.Segments.{flight, hike, Fix, Run, movement_runs}
use wanderbound.Segments.Points.{fixes_in}
use wanderbound.Segments.Valid.{Valid, movement_runs-Valid}

abbrev distance : ℕ → ℕ → ℕ
distance a b = (a - b) + (b - a)

abbrev fix_at : ℕ → Bool → ℕ → ℕ → Fix ℕ
fix_at place is_step gap_s dist_m = record {
  place = place;
  is_step = is_step;
  gap_s = gap_s;
  dist_m = dist_m;
}

-- two hours of walking on each side of half an hour by bus, and a flight
abbrev day : List (Fix ℕ)
day =
    fix_at 0 true 0 0
    ∷ fix_at 5000 false 3600 5000
    ∷ fix_at 10000 false 3600 5000
    ∷ fix_at 13000 false 1700 3500
    ∷ fix_at 18000 false 3600 5000
    ∷ fix_at 23000 false 3600 5000
    ∷ fix_at 28000 false 3600 5000
    ∷ fix_at 428000 false 3600 400000
    ∷ []

modes-run : map (λ (run : Run ℕ). run.0) (movement_runs distance day) ≡ hike ∷ flight ∷ []
unfolding movement_runs
modes-run = refl

movement_runs-Valid_example :
    All (λ (run : Run ℕ). Valid distance run.0 run.1) (movement_runs distance day)
    × (fixes_in (movement_runs distance day) ≡ day)
movement_runs-Valid_example = movement_runs-Valid distance day
