-- ===== src/Chapters/Overlap.antt =====
-- Which segments are printed with a chapter.
use wanderbound.Prelude.{
  ◌≤◌, ◌≡◌, refl, ◌∙◌, List, [], ◌∷◌, ◌++◌, arith, Bool, ◌&&◌, filter-append, leb, leb→le, le→leb,
}
use wanderbound.Prelude.Sorting.{IsSorted}
use wanderbound.Chapters.Scope.{Step, Segment, last_step, segments_for_steps}

abbrev pub earlier : Step → Step → Bool
earlier a b = leb a.timestamp b.timestamp

le-last_step :
    (step : Step) (steps : List Step)
    → IsSorted earlier (step ∷ steps)
    → step.timestamp ≤ (last_step step steps).timestamp
unfolding last_step
le-last_step step [] h = omega arith
le-last_step step (next ∷ steps) h =
    omega (arith, le-last_step next steps h.1, leb→le step.timestamp next.timestamp h.0.0)

-- the time of a step lies between those of the first and the last
between :
    (first : Step) (before : List Step) (s : Step) (after : List Step)
    → IsSorted earlier (first ∷ before ++ s ∷ after)
    → (first.timestamp ≤ s.timestamp)
      × (s.timestamp ≤ (last_step first (before ++ s ∷ after)).timestamp)
unfolding last_step
between first [] s after h = (leb→le first.timestamp s.timestamp h.0.0, le-last_step s after h.1)
between first (next ∷ before) s after h =
    let (low, high) = between next before s after h.1 in
    let step = leb→le first.timestamp next.timestamp h.0.0 in (omega arith, high)

module _ {Point : Type 0} where
  abbrev Passes : Segment Point → Step → Type 0
  Passes segment s = (segment.start_time ≤ s.timestamp) × (s.timestamp ≤ segment.end_time)

  kept :
      (xs ys : List (Segment Point)) (segment : Segment Point) (first : Step) (steps : List Step)
      → segment.start_time ≤ (last_step first steps).timestamp
      → first.timestamp ≤ segment.end_time
      → segments_for_steps (xs ++ segment ∷ ys) (first ∷ steps)
        ≡ segments_for_steps xs (first ∷ steps) ++ segment ∷ segments_for_steps ys (first ∷ steps)
  unfolding segments_for_steps
  kept xs ys segment first steps low high =
      filter-append
        (λ x. leb x.start_time (last_step first steps).timestamp && leb first.timestamp x.end_time)
        xs (segment ∷ ys)
      ∙ rw (le→leb _ _ low, le→leb _ _ high) refl

  -- Of steps in the order of time, a segment that was under way at the time of any of them is
  -- printed with them, in its place among the others.
  pub segments_for_steps-keeps :
      (xs ys : List (Segment Point)) (segment : Segment Point) (before : List Step) (s : Step)
      (after : List Step)
      → IsSorted earlier (before ++ s ∷ after)
      → segment.start_time ≤ s.timestamp
      → s.timestamp ≤ segment.end_time
      → segments_for_steps (xs ++ segment ∷ ys) (before ++ s ∷ after)
        ≡ segments_for_steps xs (before ++ s ∷ after)
          ++ segment ∷ segments_for_steps ys (before ++ s ∷ after)
  segments_for_steps-keeps xs ys segment [] s after h low high =
      kept xs ys segment s after (omega (arith, le-last_step s after h)) high
  segments_for_steps-keeps xs ys segment (first ∷ before) s after h low high =
      let (starts, ends) = between first before s after h in
      kept xs ys segment first (before ++ s ∷ after) (omega arith) (omega arith)
