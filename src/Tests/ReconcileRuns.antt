-- ===== src/Tests/ReconcileRuns.antt =====
-- New uploads of a small trip.
use wanderbound.Prelude.{
  ℕ, ◌≤◌, ◌≡◌, ◌≢◌, refl, arith, List, [], ◌∷◌, ◌++◌, true, not, ◌&&◌, String, Option, some, none,
  filter, all, contains, is_empty, string_eq, nat_eq, count, if◌then◌else◌,
}
use wanderbound.Prelude.Sorting.{sorted}
use wanderbound.Layout.Step.{Media}
use wanderbound.Chapters.{Chapter, ok, validate_album_chapters}
use wanderbound.Chapters.Partition.{IsPartition, validate_album_chapters_iff}
use wanderbound.Reconcile.{
  Slot, photo, Page, grid, PsStep, StepRead, cover_names, old_media, pages_media, pick_cover,
  reconcile_step,
}
use wanderbound.Reconcile.Steps.{reconcile_step-keeps, reconcile_step-on_disk}
use wanderbound.Reconcile.Assignment.{
  assign_new_steps_to_chapters, new_ids, assign_new_steps-IsPartition, assign_new_steps-stale,
}

abbrev chapter : String → List ℕ → String → Chapter
chapter key steps cover = record {
  id = key;
  title = "South";
  subtitle = "2024";
  step_ids = steps;
  front_cover_photo = cover;
  back_cover_photo = "b.jpg";
}

abbrev slot : String → Slot ℕ
slot name = record { id = "s"; kind = photo; media_name = some name; content = 0 }

abbrev page : List (Slot ℕ) → Page ℕ
page slots = record { id = "p"; kind = grid; slots = slots }

abbrev ps_step : ℕ → PsStep ℕ
ps_step t = record {
  name = "Cusco";
  description = "";
  timestamp = t;
  timezone_id = "UTC";
  location = 0;
}

abbrev step : ℕ → Option String → List (Page ℕ) → List String → StepRead ℕ ℕ ℕ
step i cover pages unused = record {
  id = i;
  ps = ps_step i;
  elevation = 3400;
  weather = 0;
  cover = cover;
  pages = pages;
  unused = unused;
}

abbrev before : StepRead ℕ ℕ ℕ
before =
    step 4 (some "gone.jpg")
      (page (slot "a.jpg" ∷ slot "gone.jpg" ∷ []) ∷ page (slot "gone.jpg" ∷ []) ∷ []) ("b.jpg" ∷ [])

abbrev in_folder : List String
in_folder = "c.jpg" ∷ "a.jpg" ∷ []

abbrev on_disk : List String
on_disk = "a.jpg" ∷ "b.jpg" ∷ "c.jpg" ∷ []

abbrev no_media : String → Option Media
no_media _ = none

abbrev after : StepRead ℕ ℕ ℕ
after = reconcile_step before (ps_step 9) in_folder on_disk no_media

reconcile-run :
    after
    ≡ record (step 4 (some "a.jpg") (page (slot "a.jpg" ∷ []) ∷ []) ("b.jpg" ∷ "c.jpg" ∷ [])) {
      ps = ps_step 9;
    }
unfolding reconcile_step sorted
reconcile-run = refl

reconcile_step-keeps_example :
    (pages_media after.pages ≡ filter (contains on_disk) (pages_media before.pages))
    × ((rest : List String) × (after.unused ≡ filter (contains on_disk) before.unused ++ rest)
        × ((n : String)
            → contains rest n ≡ (
                contains in_folder n
                && (not (contains (old_media before) n) && contains on_disk n))))
    × (after.cover ≡ (
        if all (contains on_disk) (cover_names before.cover)
        then before.cover
        else pick_cover after.pages after.unused no_media))
    × (all (λ p. not (is_empty p.slots)) after.pages ≡ true)
reconcile_step-keeps_example = reconcile_step-keeps before (ps_step 9) in_folder on_disk no_media

reconcile_step-on_disk_example : contains on_disk "b.jpg" ≡ true
unfolding reconcile_step sorted
reconcile_step-on_disk_example =
    reconcile_step-on_disk before (ps_step 9) in_folder on_disk no_media "b.jpg" refl

abbrev chapters : List Chapter
chapters = chapter "north" (7 ∷ 3 ∷ []) "x.jpg" ∷ chapter "south" (5 ∷ []) "a.jpg" ∷ []

abbrev new_steps : List (StepRead ℕ ℕ ℕ)
new_steps = step 9 none [] [] ∷ step 7 none [] [] ∷ step 8 none [] [] ∷ []

chapters-IsPartition : IsPartition chapters (3 ∷ 5 ∷ 7 ∷ [])
unfolding validate_album_chapters sorted
chapters-IsPartition = (validate_album_chapters_iff chapters (3 ∷ 5 ∷ 7 ∷ [])).0 refl

assign-run :
    assign_new_steps_to_chapters chapters new_steps
    ≡ chapter "north" (7 ∷ 3 ∷ []) "x.jpg" ∷ chapter "south" (5 ∷ 8 ∷ 9 ∷ []) "a.jpg" ∷ []
unfolding assign_new_steps_to_chapters sorted
assign-run = refl

once : (i : ℕ) → count (new_ids new_steps) i ≤ 1
once i = ground arith

assign_new_steps-IsPartition_example :
    IsPartition (assign_new_steps_to_chapters chapters new_steps) (3 ∷ 5 ∷ 7 ∷ 9 ∷ 7 ∷ 8 ∷ [])
assign_new_steps-IsPartition_example =
    assign_new_steps-IsPartition chapters (3 ∷ 5 ∷ 7 ∷ []) new_steps chapters-IsPartition once

assign_new_steps-stale_example :
    validate_album_chapters
      (5 ∷ 7 ∷ 8 ∷ 9 ∷ [])
      (some (some (assign_new_steps_to_chapters chapters new_steps)))
    ≢ ok tt
assign_new_steps-stale_example =
    assign_new_steps-stale chapters new_steps (5 ∷ 7 ∷ 8 ∷ 9 ∷ []) 3 refl refl
