-- ===== src/Tests/StepMediaRuns.antt =====
-- The pages of a step, written and read.
use wanderbound.Prelude.{
  ℕ, ◌≤◌, ◌≡◌, refl, sym, subst, Bool-cases, inl, inr, arith, String, ◌==◌, string_eq, Option, some,
  none, List, [], ◌∷◌, map, count,
}
use text.Mathlib.TextEquality.{eq_iff}
use wanderbound.Prelude.Sorting.{sorted}
use wanderbound.Reconcile.{photo, grid}
use wanderbound.StepMedia.{
  SlotLayout, PageLayout, landscape, StepUnusedMedia, StepRow, Tables, read_rows,
  read_steps_with_media, step_media_rows, priority_or,
}
use wanderbound.StepMedia.Saved.{read_rows-step_media_rows}
use wanderbound.StepMedia.Bulk.{read_steps_with_media-read_rows}

abbrev slot : String → Option ℕ → SlotLayout
slot name priority = record {
  id = name;
  kind = photo;
  media_name = some name;
  text = none;
  frame_orientation = landscape;
  continuation_priority = priority;
}

abbrev page : String → List SlotLayout → PageLayout
page key slots = record { id = key; kind = grid; slots = slots }

abbrev pages : List PageLayout
pages =
    page "q" (slot "a.jpg" none ∷ slot "b.jpg" (some 9) ∷ [])
    ∷ page "p" (slot "c.jpg" none ∷ [])
    ∷ []

abbrev written : List PageLayout
written =
    page "q" (slot "a.jpg" (some 0) ∷ slot "b.jpg" (some 9) ∷ [])
    ∷ page "p" (slot "c.jpg" (some 2) ∷ [])
    ∷ []

abbrev step : ℕ → ℕ → StepRow ℕ
step i t = record { id = i; timestamp = t; cover_media_name = none; rest = 0 }

abbrev other_row : StepUnusedMedia
other_row = record { step_id = 4; position_index = 0; media_name = "x.jpg" }

abbrev empty : Tables ℕ
empty = record {
  steps = step 4 20 ∷ step 3 10 ∷ [];
  pages = [];
  slots = [];
  unused = other_row ∷ [];
}

abbrev saved : Tables ℕ
saved = step_media_rows empty 3 pages ("d.jpg" ∷ "e.jpg" ∷ [])

once : (k : String) → count (map (λ p. p.id) pages) k ≤ 1
once k = elim (Bool-cases (k == "q")) [
  | inl same ↦
      subst (λ c. count (map (λ p. p.id) pages) c ≤ 1) (sym ((eq_iff k "q").0 same)) (omega arith)
  | inr apart ↦ ground arith
]

read_rows-step_media_rows_example : read_rows saved (step 3 10) ≡ record {
  id = 3;
  timestamp = 10;
  rest = 0;
  cover = none;
  pages = written;
  unused = "d.jpg" ∷ "e.jpg" ∷ [];
}
unfolding priority_or
read_rows-step_media_rows_example =
    read_rows-step_media_rows empty (step 3 10) pages ("d.jpg" ∷ "e.jpg" ∷ []) refl refl refl once

read_steps_with_media-read_rows_example :
    read_steps_with_media saved ≡ map (read_rows saved) (step 3 10 ∷ step 4 20 ∷ [])
unfolding sorted step_media_rows
read_steps_with_media-read_rows_example = read_steps_with_media-read_rows saved
