-- ===== src/Tests/ScopeRuns.antt =====
-- Updates and print scopes of a small album.
use wanderbound.Prelude.{ℕ, ◌+◌, ◌≡◌, refl, List, [], ◌∷◌, String, some, length}
use wanderbound.Prelude.Sorting.{sorted}
use wanderbound.Chapters.{Chapter, ok, err, missing_steps, validate_album_chapters}
use wanderbound.Chapters.Partition.{IsPartition, validate_album_chapters_iff}
use wanderbound.Chapters.Update.{Album, update_album_settings}
use wanderbound.Chapters.Scope.{
  Step, Segment, PrintAlbum, steps_for_chapter, segments_for_steps, build_print_bundle_scope,
  chapter_bundle, find_chapter,
}

abbrev chapter : String → List ℕ → Chapter
chapter key steps = record {
  id = key;
  title = "South";
  subtitle = "2024";
  step_ids = steps;
  front_cover_photo = "a.jpg";
  back_cover_photo = "b.jpg";
}

abbrev whole : List Chapter
whole = chapter "all" (3 ∷ 5 ∷ 7 ∷ []) ∷ []

abbrev halves : List Chapter
halves = chapter "north" (7 ∷ 3 ∷ []) ∷ chapter "south" (5 ∷ []) ∷ []

abbrev stored : List ℕ
stored = 3 ∷ 5 ∷ 7 ∷ []

abbrev album : List Chapter → ℕ → Album ℕ
album cs n = record { chapters = cs; settings = n }

whole-IsPartition : IsPartition whole stored
unfolding validate_album_chapters sorted
whole-IsPartition = (validate_album_chapters_iff whole stored).0 refl

halves-IsPartition : IsPartition halves stored
unfolding validate_album_chapters sorted
halves-IsPartition = (validate_album_chapters_iff halves stored).0 refl

update-run :
    update_album_settings (◌+◌) stored (album whole 4) (some (some halves)) 2 ≡ ok (album halves 6)
unfolding update_album_settings validate_album_chapters sorted
update-run = refl

update-refused :
    update_album_settings (◌+◌) (9 ∷ stored) (album whole 4) (some (some halves)) 2
    ≡ err (missing_steps (9 ∷ []))
unfolding update_album_settings validate_album_chapters sorted
update-refused = refl

abbrev step : ℕ → ℕ → Step
step i t = record { id = i; timestamp = t; date = t }

abbrev three_steps : List Step
three_steps = step 3 10 ∷ step 5 20 ∷ step 7 30 ∷ []

abbrev segment : ℕ → ℕ → Segment ℕ
segment a b = record { start_time = a; end_time = b; points = a ∷ b ∷ [] }

abbrev two_steps : List Step
two_steps = step 3 10 ∷ step 5 20 ∷ []

abbrev printed : List Chapter → List (ℕ × ℕ) → PrintAlbum ℕ
printed cs ranges = record { chapters = cs; maps_ranges = ranges; rest = 0 }

scope-run :
    build_print_bundle_scope
      (λ xs. length xs)
      (λ km. km)
      (λ points. length points)
      (printed halves ((5, 12) ∷ (15, 18) ∷ (29, 40) ∷ []))
      three_steps
      (segment 0 5 ∷ segment 18 25 ∷ [])
      (some "north")
    ≡ some (record {
      album = printed (chapter "north" (7 ∷ 3 ∷ []) ∷ []) ((5, 12) ∷ (29, 40) ∷ []);
      steps = step 3 10 ∷ step 7 30 ∷ [];
      segments = segment 18 25 ∷ [];
      total_distance_km = 1;
    })
unfolding build_print_bundle_scope find_chapter steps_for_chapter segments_for_steps chapter_bundle
scope-run = refl
