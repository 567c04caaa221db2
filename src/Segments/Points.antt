-- ===== src/Segments/Points.antt =====
-- No stage of the segmentation adds, loses or moves a point.
use wanderbound.Prelude.{
  ℕ, ◌≡◌, refl, sym, ap, ◌∙◌, Bool, false, Option, none, some, List, [], ◌∷◌, ◌++◌, map,
}
use wanderbound.Segments.{
  Mode, other, Fix, Run, runs, unrun, label, flight_edges, label_edges, null_noise_gaps,
  forward_fill, absorb_noise_gaps, merge_long_gaps, absorb_long_gaps, absorb, size_runs,
  drop_stepless, validate_segments, movement_runs, or_columns, shift_up, shift_down,
}
use wanderbound.Segments.Runs.{fixes_of, unrun-runs}

module _ {Place : Type 0} where
  abbrev pub fixes_in : List (Run Place) → List (Fix Place)
  fixes_in [] = []
  fixes_in ((mode, fixes) ∷ rest) = fixes ++ fixes_in rest

  fixes_of_run :
      (mode : Mode) (fixes : List (Fix Place)) (points : List (Fix Place × Mode))
      → fixes_of (map (λ fix. (fix, mode)) fixes ++ points) ≡ fixes ++ fixes_of points
  fixes_of_run mode [] points = refl
  fixes_of_run mode (fix ∷ fixes) points = ap (◌∷◌ fix) (fixes_of_run mode fixes points)

  fixes_of-unrun : (rest : List (Run Place)) → fixes_of (unrun rest) ≡ fixes_in rest
  unfolding unrun
  fixes_of-unrun [] = refl
  fixes_of-unrun ((mode, fixes) ∷ rest) =
      fixes_of_run mode fixes (unrun rest) ∙ ap (◌++◌ fixes) (fixes_of-unrun rest)

  fixes_in-runs : (points : List (Fix Place × Mode)) → fixes_in (runs points) ≡ fixes_of points
  fixes_in-runs points = sym (fixes_of-unrun (runs points)) ∙ ap fixes_of (unrun-runs points)

  unfoldable fixes_marked : List (Option Mode × List (Fix Place)) → List (Fix Place)
  fixes_marked [] = []
  fixes_marked ((mode, fixes) ∷ rest) = fixes ++ fixes_marked rest

  fixes-filled :
      (last : Mode) (marked : List (Option Mode × List (Fix Place)))
      → fixes_in (forward_fill last marked) ≡ fixes_marked marked
  unfolding forward_fill fixes_marked
  fixes-filled last [] = refl
  fixes-filled last ((none, fixes) ∷ rest) = ap (◌++◌ fixes) (fixes-filled last rest)
  fixes-filled last ((some mode, fixes) ∷ rest) = ap (◌++◌ fixes) (fixes-filled mode rest)

  fixes-null_noise_gaps :
      (before : Option (Run Place)) (rest : List (Run Place))
      → fixes_marked (null_noise_gaps before rest) ≡ fixes_in rest
  unfolding null_noise_gaps fixes_marked
  fixes-null_noise_gaps before [] = refl
  fixes-null_noise_gaps before ((mode, fixes) ∷ rest) =
      ap (◌++◌ fixes) (fixes-null_noise_gaps (some (mode, fixes)) rest)

  fixes-merge_long_gaps :
      (before : Option (Run Place)) (rest : List (Run Place))
      → fixes_in (merge_long_gaps before rest) ≡ fixes_in rest
  unfolding merge_long_gaps
  fixes-merge_long_gaps before [] = refl
  fixes-merge_long_gaps before ((mode, fixes) ∷ rest) =
      ap (◌++◌ fixes) (fixes-merge_long_gaps (some (mode, fixes)) rest)

  fixes-drop_stepless : (rest : List (Run Place)) → fixes_in (drop_stepless rest) ≡ fixes_in rest
  unfolding drop_stepless
  fixes-drop_stepless [] = refl
  fixes-drop_stepless ((mode, fixes) ∷ rest) = ap (◌++◌ fixes) (fixes-drop_stepless rest)

  fixes-label :
      (fixes : List (Fix Place)) (flights adjacent : List Bool)
      → fixes_of (label fixes flights adjacent) ≡ fixes
  unfolding label
  fixes-label [] flights adjacent = refl
  fixes-label (fix ∷ fixes) [] adjacent = ap (◌∷◌ fix) (fixes-label fixes [] adjacent)
  fixes-label (fix ∷ fixes) (f ∷ flights) [] = ap (◌∷◌ fix) (fixes-label fixes flights [])
  fixes-label (fix ∷ fixes) (f ∷ flights) (a ∷ adjacent) =
      ap (◌∷◌ fix) (fixes-label fixes flights adjacent)

  fixes-absorb : (points : List (Fix Place × Mode)) → fixes_in (absorb points) ≡ fixes_of points
  unfolding absorb absorb_noise_gaps absorb_long_gaps
  fixes-absorb points =
      let quiet = absorb_noise_gaps points in
      fixes_in-runs (absorb_long_gaps quiet)
      ∙ fixes_of-unrun (merge_long_gaps none (runs quiet))
      ∙ fixes-merge_long_gaps none (runs quiet)
      ∙ fixes_in-runs quiet
      ∙ fixes_of-unrun (forward_fill other (null_noise_gaps none (runs points)))
      ∙ fixes-filled other (null_noise_gaps none (runs points))
      ∙ fixes-null_noise_gaps none (runs points)
      ∙ fixes_in-runs points

  module _ (haversine_m : Place → Place → ℕ) where
    fixes-size_runs :
        (rest : List (Run Place)) → fixes_in (size_runs haversine_m rest) ≡ fixes_in rest
    unfolding size_runs
    fixes-size_runs [] = refl
    fixes-size_runs ((mode, fixes) ∷ rest) = ap (◌++◌ fixes) (fixes-size_runs rest)

    pub fixes-movement_runs :
        (fixes : List (Fix Place)) → fixes_in (movement_runs haversine_m fixes) ≡ fixes
    unfolding movement_runs validate_segments label_edges
    fixes-movement_runs fixes =
        let segments = absorb (label_edges fixes) in
        let sized = runs (unrun (size_runs haversine_m segments)) in
        fixes_in-runs (unrun (drop_stepless sized))
        ∙ fixes_of-unrun (drop_stepless sized)
        ∙ fixes-drop_stepless sized
        ∙ fixes_in-runs (unrun (size_runs haversine_m segments))
        ∙ fixes_of-unrun (size_runs haversine_m segments)
        ∙ fixes-size_runs segments
        ∙ fixes-absorb (label_edges fixes)
        ∙ fixes-label fixes (or_columns (flight_edges fixes) (shift_up (flight_edges fixes))) (
            or_columns (map (λ (fix : Fix Place). fix.is_step) fixes)
              (shift_down false (map (λ (fix : Fix Place). fix.is_step) fixes)))
