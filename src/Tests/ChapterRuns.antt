-- ===== src/Tests/ChapterRuns.antt =====
-- The chapter checks on a small album.
use wanderbound.Prelude.{ℕ, ◌≡◌, ◌↔◌, refl, List, [], ◌∷◌, String, some}
use wanderbound.Prelude.Sorting.{sorted}
use wanderbound.Chapters.{
  Chapter, ok, err, already_assigned, missing_steps, validate_album_chapters,
}
use wanderbound.Chapters.Partition.{IsPartition, validate_album_chapters_iff}

abbrev chapter : String → List ℕ → Chapter
chapter key steps = record {
  id = key;
  title = "South";
  subtitle = "2024";
  step_ids = steps;
  front_cover_photo = "a.jpg";
  back_cover_photo = "b.jpg";
}

abbrev two_chapters : List Chapter
two_chapters = chapter "north" (7 ∷ 3 ∷ []) ∷ chapter "south" (5 ∷ []) ∷ []

validate-run : validate_album_chapters (3 ∷ 5 ∷ 7 ∷ []) (some (some two_chapters)) ≡ ok tt
unfolding validate_album_chapters sorted
validate-run = refl

validate-missing :
    validate_album_chapters (9 ∷ 3 ∷ 8 ∷ 5 ∷ 7 ∷ []) (some (some two_chapters))
    ≡ err (missing_steps (8 ∷ 9 ∷ []))
unfolding validate_album_chapters sorted
validate-missing = refl

validate-twice :
    validate_album_chapters (3 ∷ []) (some (some (chapter "one" (3 ∷ 3 ∷ []) ∷ [])))
    ≡ err (already_assigned 3)
unfolding validate_album_chapters
validate-twice = refl

validate_album_chapters_iff_example :
    (validate_album_chapters (3 ∷ 5 ∷ 7 ∷ []) (some (some two_chapters)) ≡ ok tt)
    ↔ IsPartition two_chapters (3 ∷ 5 ∷ 7 ∷ [])
validate_album_chapters_iff_example = validate_album_chapters_iff two_chapters (3 ∷ 5 ∷ 7 ∷ [])
