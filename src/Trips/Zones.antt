-- ===== src/Trips/Zones.antt =====
-- The time zone of a segment: `segment_timezone`.
use wanderbound.Prelude.{
  ℕ, ◌≡◌, refl, ap, arith, Bool, true, false, List, [], ◌∷◌, filter, leb, All, Bool-cases, inl, inr,
}
use wanderbound.Prelude.Sorting.{IsSorted}
use wanderbound.Trips.{PsStep, best_step, segment_timezone}

abbrev pub not_after : PsStep → PsStep → Bool
not_after a b = leb a.timestamp b.timestamp

abbrev pub has_begun : ℕ → PsStep → Bool
has_begun time step = leb step.timestamp time

abbrev pub final_step : PsStep → List PsStep → PsStep
final_step step [] = step
final_step step (next ∷ steps) = final_step next steps

none-begun :
    (time : ℕ) (step : PsStep) (steps : List PsStep)
    → has_begun time step ≡ false
    → All (λ next. not_after step next ≡ true) steps
    → filter (has_begun time) steps ≡ []
none-begun time step [] h k = refl
none-begun time step (next ∷ steps) h k = ground (arith, h, k.0, none-begun time step steps h k.1)

best-last :
    (time : ℕ) (best : PsStep) (steps : List PsStep)
    → IsSorted not_after steps
    → best_step time best steps ≡ final_step best (filter (has_begun time) steps)
unfolding best_step
best-last time best [] h = refl
best-last time best (step ∷ steps) h = elim (Bool-cases (has_begun time step)) [
  | inl begun ↦ rw (best_step, begun) (best-last time step steps h.1)
  | inr later ↦ rw (best_step, later, none-begun time step steps later h.0) refl
]

-- When the steps are in order of time, the zone is that of the last step that has begun when the
-- segment starts, and that of the first step when none has.
pub segment_timezone-final_step :
    (time : ℕ) (first : PsStep) (steps : List PsStep)
    → IsSorted not_after (first ∷ steps)
    → segment_timezone time first steps
      ≡ (final_step first (filter (has_begun time) (first ∷ steps))).timezone_id
unfolding segment_timezone
segment_timezone-final_step time first steps h =
    ap (λ (step : PsStep). step.timezone_id) (best-last time first (first ∷ steps) h)
