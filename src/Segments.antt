-- ===== src/Segments.antt =====
-- The movements of a trip, from its points: the labels, the absorption of short interruptions and
-- the validation of backend/app/logic/spatial/segments.py, with the thresholds of
-- backend/app/logic/spatial/segment_rules.py. Distances are whole metres and times whole seconds,
-- so a speed is compared by its two parts, multiplied out. The great-circle distance is an argument.
-- The columns of a table are lists, and a run of equal modes is a mode with its points.
pub mod Runs
pub mod Absorbed
pub mod Points
pub mod Valid
use wanderbound.Prelude.{
  ℕ, ◌+◌, ◌*◌, max, Bool, true, false, not, ◌&&◌, ◌||◌, ◌==◌, nat_eq, Option, none, some, List, [],
  ◌∷◌, ◌++◌, map, any, leb, ltb, if◌then◌else◌,
}

pub data Mode : Type 0 where
  flight : Mode
  hike : Mode
  other : Mode

unfoldable pub mode_number : Mode → ℕ
mode_number flight = 0
mode_number hike = 1
mode_number other = 2

unfoldable pub is_mode : Mode → Mode → Bool
unfolding mode_number
is_mode a b = mode_number a == mode_number b

-- a point, with the time and the length of the edge that ends at it, which the first point has not
pub record Fix (Place : Type 0) : Type 0 where
  pub place : Place
  pub is_step : Bool
  pub gap_s : ℕ
  pub dist_m : ℕ

-- `shift(1, fill_value=False)` and `shift(-1, fill_value=False)`
unfoldable pub shift_down : Bool → List Bool → List Bool
shift_down before [] = []
shift_down before (b ∷ bs) = before ∷ shift_down b bs

unfoldable pub shift_up : List Bool → List Bool
shift_up [] = []
shift_up (b ∷ []) = false ∷ []
shift_up (b ∷ next ∷ bs) = next ∷ shift_up (next ∷ bs)

unfoldable pub or_columns : List Bool → List Bool → List Bool
or_columns [] bs = bs
or_columns (a ∷ rest) [] = a ∷ rest
or_columns (a ∷ rest) (b ∷ bs) = (a || b) ∷ or_columns rest bs

unfoldable pub and_columns : List Bool → List Bool → List Bool
and_columns [] bs = []
and_columns (a ∷ rest) [] = []
and_columns (a ∷ rest) (b ∷ bs) = (a && b) ∷ and_columns rest bs

-- `speed <= v` and `speed >= v` in metres an hour, where no time is no speed
unfoldable pub at_most : ℕ → ℕ → ℕ → Bool
at_most v dist_m gap_s = gap_s == 0 || leb (dist_m * 3600) (v * gap_s)

unfoldable pub at_least : ℕ → ℕ → ℕ → Bool
at_least v dist_m gap_s = not (gap_s == 0) && leb (v * gap_s) (dist_m * 3600)

abbrev pub hike_max_speed : ℕ
hike_max_speed = 6500

abbrev pub Run : Type 0 → Type 0
Run Place = Mode × List (Fix Place)

module _ {Place : Type 0} where
  unfoldable pub fast_flight_edge : Fix Place → Bool
  unfolding at_least
  fast_flight_edge fix = at_least 200000 fix.dist_m fix.gap_s

  unfoldable pub sparse_flight_edge : Fix Place → Bool
  unfolding at_least
  sparse_flight_edge fix = leb 500000 fix.dist_m && at_least 140000 fix.dist_m fix.gap_s

  unfoldable pub flight_edges : List (Fix Place) → List Bool
  unfolding fast_flight_edge sparse_flight_edge shift_down shift_up or_columns and_columns
  flight_edges fixes =
      let fast = map fast_flight_edge fixes in
      or_columns fast (
        and_columns (map sparse_flight_edge fixes)
          (or_columns (shift_down false fast) (shift_up fast)))

  unfoldable pub is_hike_edge : Fix Place → Bool → Bool → Bool
  unfolding at_most
  is_hike_edge fix step_adjacent in_flight =
      let plausible = leb (fix.dist_m * 3600) (hike_max_speed * fix.gap_s + 10000 * 3600) in
      (at_most hike_max_speed fix.dist_m fix.gap_s || step_adjacent && plausible && not in_flight)
      && ltb fix.gap_s (4 * 3600)

  unfoldable pub label : List (Fix Place) → List Bool → List Bool → List (Fix Place × Mode)
  unfolding is_hike_edge
  label [] flights adjacent = []
  label (fix ∷ fixes) [] adjacent = (fix, other) ∷ label fixes [] adjacent
  label (fix ∷ fixes) (in_flight ∷ flights) [] = (fix, other) ∷ label fixes flights []
  label (fix ∷ fixes) (in_flight ∷ flights) (step_adjacent ∷ adjacent) =
      (
        fix,
        if in_flight
            then flight
            else if is_hike_edge fix step_adjacent in_flight
            then hike
            else other,
      )
      ∷ label fixes flights adjacent

  -- The three columns have the length of the table.
  unfoldable pub label_edges : List (Fix Place) → List (Fix Place × Mode)
  unfolding label flight_edges shift_down shift_up or_columns
  label_edges fixes =
      let flights = flight_edges fixes in
      let steps = map (λ (fix : Fix Place). fix.is_step) fixes in
      label fixes (or_columns flights (shift_up flights))
        (or_columns steps (shift_down false steps))

  -- `rle_id`: the points of equal modes that follow each other
  unfoldable pub push : Fix Place → Mode → List (Run Place) → List (Run Place)
  unfolding is_mode
  push fix mode [] = (mode, fix ∷ []) ∷ []
  push fix mode ((next, fixes) ∷ rest) =
      if is_mode mode next
      then (next, fix ∷ fixes) ∷ rest
      else (mode, fix ∷ []) ∷ (next, fixes) ∷ rest

  unfoldable pub runs : List (Fix Place × Mode) → List (Run Place)
  unfolding push
  runs [] = []
  runs ((fix, mode) ∷ points) = push fix mode (runs points)

  unfoldable pub unrun : List (Run Place) → List (Fix Place × Mode)
  unrun [] = []
  unrun ((mode, fixes) ∷ rest) = map (λ fix. (fix, mode)) fixes ++ unrun rest

  unfoldable pub run_s : List (Fix Place) → ℕ
  run_s [] = 0
  run_s (fix ∷ fixes) = fix.gap_s + run_s fixes

  unfoldable pub run_m : List (Fix Place) → ℕ
  run_m [] = 0
  run_m (fix ∷ fixes) = fix.dist_m + run_m fixes

  -- the mode and the time of a neighbour
  unfoldable pub is_hike_for : ℕ → Option (Run Place) → Bool
  unfolding is_mode run_s
  is_hike_for seconds none = false
  is_hike_for seconds (some (mode, fixes)) = is_mode mode hike && leb seconds (run_s fixes)

  unfoldable pub next_of : List (Run Place) → Option (Run Place)
  next_of [] = none
  next_of (run ∷ rest) = some run

  unfoldable pub is_noise_gap : Option (Run Place) → Run Place → Option (Run Place) → Bool
  unfolding is_mode run_s run_m at_most is_hike_for
  is_noise_gap before (mode, fixes) next =
      is_mode mode other
      && ltb (run_m fixes) 4000
      && ltb (run_s fixes) (3 * 3600)
      && (at_most hike_max_speed (run_m fixes) (run_s fixes)
          || ltb (run_s fixes) 1800 && is_hike_for 5400 before)
      && is_hike_for 0 before
      && is_hike_for 5400 next

  -- the modes, where a gap has none
  unfoldable pub null_noise_gaps :
      Option (Run Place) → List (Run Place) → List (Option Mode × List (Fix Place))
  unfolding is_noise_gap next_of
  null_noise_gaps before [] = []
  null_noise_gaps before ((mode, fixes) ∷ rest) =
      (if is_noise_gap before (mode, fixes) (next_of rest) then none else some mode, fixes)
      ∷ null_noise_gaps (some (mode, fixes)) rest

  -- The first run has no run before it, so that it is no gap.
  unfoldable pub forward_fill : Mode → List (Option Mode × List (Fix Place)) → List (Run Place)
  forward_fill last [] = []
  forward_fill last ((none, fixes) ∷ rest) = (last, fixes) ∷ forward_fill last rest
  forward_fill last ((some mode, fixes) ∷ rest) = (mode, fixes) ∷ forward_fill mode rest

  unfoldable pub absorb_noise_gaps : List (Fix Place × Mode) → List (Fix Place × Mode)
  unfolding null_noise_gaps forward_fill runs unrun
  absorb_noise_gaps points = unrun (forward_fill other (null_noise_gaps none (runs points)))

  unfoldable pub is_long_gap : Option (Run Place) → Run Place → Option (Run Place) → Bool
  unfolding is_mode run_s run_m at_most is_hike_for
  is_long_gap before (mode, fixes) next =
      let is_camp_gap =
        ltb (run_m fixes) 1000 && ltb (run_s fixes) (20 * 3600) && is_hike_for 3600 before in
      let is_short = ltb (run_s fixes) (6 * 3600) in
      let is_blackout_gap =
        at_most hike_max_speed (run_m fixes) (run_s fixes)
        && is_hike_for 5400 next
        && (is_short && ltb (run_m fixes) 10000
            || not is_short
              && ltb (run_s fixes) (24 * 3600)
              && ltb (run_m fixes) 4000
              && is_hike_for 5400 before) in
      is_mode mode other
      && is_hike_for 0 before
      && is_hike_for 0 next
      && (is_camp_gap || is_blackout_gap)

  unfoldable pub merge_long_gaps : Option (Run Place) → List (Run Place) → List (Run Place)
  unfolding is_long_gap next_of
  merge_long_gaps before [] = []
  merge_long_gaps before ((mode, fixes) ∷ rest) =
      (if is_long_gap before (mode, fixes) (next_of rest) then hike else mode, fixes)
      ∷ merge_long_gaps (some (mode, fixes)) rest

  unfoldable pub absorb_long_gaps : List (Fix Place × Mode) → List (Fix Place × Mode)
  unfolding merge_long_gaps runs unrun
  absorb_long_gaps points = unrun (merge_long_gaps none (runs points))

  unfoldable pub absorb : List (Fix Place × Mode) → List (Run Place)
  unfolding absorb_noise_gaps absorb_long_gaps runs
  absorb points = runs (absorb_long_gaps (absorb_noise_gaps points))

  unfoldable pub has_step : List (Fix Place) → Bool
  has_step fixes = any (λ (fix : Fix Place). fix.is_step) fixes

  unfoldable pub drop_stepless : List (Run Place) → List (Run Place)
  unfolding has_step is_mode
  drop_stepless [] = []
  drop_stepless ((mode, fixes) ∷ rest) =
      (if is_mode mode hike && not (has_step fixes) then other else mode, fixes)
      ∷ drop_stepless rest

  module _ (haversine_m : Place → Place → ℕ) where
    unfoldable pub furthest : Place → List (Fix Place) → ℕ
    furthest origin [] = 0
    furthest origin (fix ∷ fixes) = max (haversine_m origin fix.place) (furthest origin fixes)

    unfoldable pub displacement : List (Fix Place) → ℕ
    unfolding furthest
    displacement [] = 0
    displacement (fix ∷ fixes) = furthest fix.place (fix ∷ fixes)

    unfoldable pub final_mode : Run Place → Mode
    unfolding run_s run_m displacement
    final_mode (flight, fixes) = if leb 100000 (run_m fixes) then flight else other
    final_mode (hike, fixes) =
        if leb 2000 (run_m fixes) && leb 7200 (run_s fixes) && leb 1000 (displacement fixes)
        then hike
        else other
    final_mode (other, fixes) = other

    unfoldable pub size_runs : List (Run Place) → List (Run Place)
    unfolding final_mode
    size_runs [] = []
    size_runs (run ∷ rest) = (final_mode run, run.1) ∷ size_runs rest

    unfoldable pub validate_segments : List (Run Place) → List (Run Place)
    unfolding size_runs drop_stepless runs unrun
    validate_segments segments = runs (unrun (drop_stepless (runs (unrun (size_runs segments)))))

    unfoldable pub movement_runs : List (Fix Place) → List (Run Place)
    unfolding label_edges absorb validate_segments
    movement_runs fixes = validate_segments (absorb (label_edges fixes))
