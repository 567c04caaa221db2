-- ===== src/Segments/Absorbed.antt =====
-- What the absorption of interruptions changes.
use wanderbound.Prelude.{◌≡◌, Bool, true, false, ltb, ◌&&◌, ◌||◌, Option, none, some, List, [], ◌∷◌}
use wanderbound.Segments.{Mode, hike, other, is_mode, Fix, Run, run_s, run_m, next_of}

-- a mode is kept, or it is an interruption that becomes a hike
abbrev pub may_absorb : Mode → Mode → Bool
may_absorb before after = is_mode before after || is_mode before other && is_mode after hike

module _ {Place : Type 0} where
  abbrev pub Absorbs : List (Fix Place × Mode) → List (Fix Place × Mode) → Type 0
  Absorbs [] [] = Unit
  Absorbs [] (after ∷ afters) = ⊥
  Absorbs (before ∷ befores) [] = ⊥
  Absorbs (before ∷ befores) (after ∷ afters) =
      (before.0 ≡ after.0) × (may_absorb before.1 after.1 ≡ true) × Absorbs befores afters

  -- the sizes of the interruptions that the two passes may absorb
  abbrev pub noise_size : List (Fix Place) → Bool
  noise_size fixes = ltb (run_m fixes) 4000 && ltb (run_s fixes) 10800

  abbrev pub long_size : List (Fix Place) → Bool
  long_size fixes =
      ltb (run_m fixes) 1000 && ltb (run_s fixes) 72000
      || ltb (run_m fixes) 10000 && ltb (run_s fixes) 21600
      || ltb (run_m fixes) 4000 && ltb (run_s fixes) 86400

  abbrev pub is_hike_run : Option (Run Place) → Bool
  is_hike_run none = false
  is_hike_run (some run) = is_mode run.0 hike

  -- `after` is `before` with some gaps that have become hikes.
  abbrev pub AbsorbsGaps :
      Option (Run Place) → (List (Fix Place) → Bool) → List (Run Place) → List (Run Place) → Type 0
  AbsorbsGaps last size [] [] = Unit
  AbsorbsGaps last size [] (after ∷ afters) = ⊥
  AbsorbsGaps last size (before ∷ befores) [] = ⊥
  AbsorbsGaps last size (before ∷ befores) (after ∷ afters) =
      (before.1 ≡ after.1)
      × ((is_mode before.0 after.0
            || is_mode before.0 other
              && is_mode after.0 hike
              && is_hike_run last
              && is_hike_run (next_of befores)
              && size before.1)
          ≡ true)
      × AbsorbsGaps (some before) size befores afters
