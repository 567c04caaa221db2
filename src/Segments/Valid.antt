-- ===== src/Segments/Valid.antt =====
-- The runs that are left: which points they have, and what each run has to be.
use wanderbound.Prelude.{
  ℕ, ◌≡◌, refl, arith, Bool, true, ◌&&◌, List, [], ◌∷◌, ◌++◌, append_nil, sym, ap, All, Bool-cases,
  inl, inr, leb,
}
use wanderbound.Segments.{
  Mode, flight, hike, other, is_mode, Fix, Run, runs, unrun, run_s, run_m, label_edges, absorb,
  displacement, final_mode, size_runs, has_step, drop_stepless, validate_segments, movement_runs,
}
use wanderbound.Segments.Points.{fixes_in, fixes-movement_runs}
use wanderbound.Segments.Runs.{Holds, runs-Holds}

module _ {Place : Type 0} where
  -- the sizes that a flight and a hike must have
  abbrev is_sized : Mode → List (Fix Place) → Bool
  is_sized flight fixes = leb 100000 (run_m fixes)
  is_sized hike fixes = leb 2000 (run_m fixes) && leb 7200 (run_s fixes)
  is_sized other fixes = true

  -- a hike must have a step, too
  abbrev pub is_valid : Mode → List (Fix Place) → Bool
  is_valid flight fixes = leb 100000 (run_m fixes)
  is_valid hike fixes = leb 2000 (run_m fixes) && leb 7200 (run_s fixes) && has_step fixes
  is_valid other fixes = true

  module _ (haversine_m : Place → Place → ℕ) where
    -- Consecutive points of a hike pass all three minimums, where the displacement is the greatest
    -- distance from the first of them.
    abbrev pub is_large : List (Fix Place) → Bool
    is_large fixes =
        leb 2000 (run_m fixes)
        && leb 7200 (run_s fixes)
        && leb 1000 (displacement haversine_m fixes)

    abbrev pub HasLargePart : Mode → List (Fix Place) → Type 0
    HasLargePart flight fixes = Unit
    HasLargePart hike fixes =
        (before : List (Fix Place)) × (part : List (Fix Place)) × (after : List (Fix Place))
        × (fixes ≡ before ++ part ++ after)
        × (is_large part ≡ true)
    HasLargePart other fixes = Unit

    abbrev Sized : Mode → List (Fix Place) → Type 0
    Sized mode fixes = (is_sized mode fixes ≡ true) × HasLargePart mode fixes

    abbrev pub Valid : Mode → List (Fix Place) → Type 0
    Valid mode fixes = (is_valid mode fixes ≡ true) × HasLargePart mode fixes

    part-grows :
        (mode : Mode) (fix : Fix Place) (fixes : List (Fix Place))
        → HasLargePart mode fixes
        → HasLargePart mode (fix ∷ fixes)
    part-grows flight fix fixes h = tt
    part-grows hike fix fixes (before, part, after, split, large) =
        (fix ∷ before, part, after, ap (◌∷◌ fix) split, large)
    part-grows other fix fixes h = tt

    sized-grows :
        (mode : Mode) (fix : Fix Place) (fixes : List (Fix Place))
        → Sized mode fixes
        → Sized mode (fix ∷ fixes)
    unfolding run_m run_s
    sized-grows flight fix fixes h = (ground (arith, h.0), tt)
    sized-grows hike fix fixes h = (ground (arith, h.0), part-grows hike fix fixes h.1)
    sized-grows other fix fixes h = (refl, tt)

    valid-grows :
        (mode : Mode) (fix : Fix Place) (fixes : List (Fix Place))
        → Valid mode fixes
        → Valid mode (fix ∷ fixes)
    unfolding run_m run_s has_step
    valid-grows flight fix fixes h = (ground (arith, h.0), tt)
    valid-grows hike fix fixes h = (ground (arith, h.0), part-grows hike fix fixes h.1)
    valid-grows other fix fixes h = (refl, tt)

    drop_stepless-Valid :
        (rest : List (Run Place))
        → Holds Sized sized-grows rest
        → Holds Valid valid-grows (drop_stepless rest)
    unfolding drop_stepless is_mode
    drop_stepless-Valid [] h = tt
    drop_stepless-Valid ((flight, fixes) ∷ rest) h = (h.0, drop_stepless-Valid rest h.1)
    drop_stepless-Valid ((other, fixes) ∷ rest) h = ((refl, tt), drop_stepless-Valid rest h.1)
    drop_stepless-Valid ((hike, fixes) ∷ rest) h = elim (Bool-cases (has_step fixes)) [
      | inl steps ↦
          rw (drop_stepless, steps)
            ((ground (arith, steps, h.0.0), h.0.1), drop_stepless-Valid rest h.1)
      | inr none_left ↦ rw (drop_stepless, none_left) ((refl, tt), drop_stepless-Valid rest h.1)
    ]

    final-Sized :
        (mode : Mode) (fixes : List (Fix Place))
        → Sized (final_mode haversine_m (mode, fixes)) fixes
    unfolding final_mode
    final-Sized flight fixes = elim (Bool-cases (leb 100000 (run_m fixes))) [
      | inl long ↦ rw (final_mode, long) (long, tt)
      | inr short ↦ rw (final_mode, short) (refl, tt)
    ]
    final-Sized hike fixes = elim (Bool-cases (is_large fixes)) [
      | inl long ↦
          rw (final_mode, long)
            (ground (arith, long), ([], fixes, [], sym (append_nil fixes), long))
      | inr short ↦ rw (final_mode, short) (refl, tt)
    ]
    final-Sized other fixes = (refl, tt)

    size_runs-Sized :
        (rest : List (Run Place)) → Holds Sized sized-grows (size_runs haversine_m rest)
    unfolding size_runs
    size_runs-Sized [] = tt
    size_runs-Sized ((mode, fixes) ∷ rest) = (final-Sized mode fixes, size_runs-Sized rest)

    validate-Valid :
        (segments : List (Run Place))
        → Holds Valid valid-grows (validate_segments haversine_m segments)
    unfolding validate_segments
    validate-Valid segments =
        runs-Holds Valid valid-grows (drop_stepless (runs (unrun (size_runs haversine_m segments))))
          (drop_stepless-Valid (runs (unrun (size_runs haversine_m segments))) (
            runs-Holds Sized sized-grows (size_runs haversine_m segments)
              (size_runs-Sized segments)))

    -- The movements of a trip have its points, each once and in order. Each run that is left as a
    -- flight is at least 100 km long. Each hike is at least 2 km and two hours long, has a step, and
    -- contains consecutive points that pass all three minimums of a hike: 2 km, two hours, and a
    -- point at least 1 km from the first of them.
    pub movement_runs-Valid :
        (fixes : List (Fix Place))
        → All (λ (run : Run Place). Valid run.0 run.1) (movement_runs haversine_m fixes)
          × (fixes_in (movement_runs haversine_m fixes) ≡ fixes)
    unfolding movement_runs
    movement_runs-Valid fixes =
        (validate-Valid (absorb (label_edges fixes)), fixes-movement_runs haversine_m fixes)
