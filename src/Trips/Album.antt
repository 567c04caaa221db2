-- ===== src/Trips/Album.antt =====
-- What a processed trip puts into its album: one chapter with all steps, and each medium once.
use wanderbound.Prelude.{
  ℕ, ◌≡◌, ◌≤◌, refl, ◌∙◌, arith, String, false, ◌||◌, string_eq, nat_eq, Option, none, some, List,
  [], ◌∷◌, ◌++◌, append_nil, contains, count, count-append, contains-append, is_empty,
  if◌then◌else◌, Bool-cases, inl, inr, count-eq_zero, count_pos,
}
use wanderbound.Chapters.{Chapter, validate_album_chapters, ok}
use wanderbound.Chapters.Partition.{validate_album_chapters_iff}
use wanderbound.Trips.{default_album_chapter, merge_layout, merge_media}

abbrev one_chapter : String → String → List ℕ → String → List Chapter
one_chapter title subtitle step_ids cover = default_album_chapter title subtitle step_ids cover ∷ []

-- The chapters of a newly processed trip pass the validation that later updates of them go through,
-- when the trip has steps and their ids are distinct.
pub validate-default_album_chapter :
    (title subtitle : String) (step_ids : List ℕ) (cover : String)
    → is_empty step_ids ≡ false
    → ((id : ℕ) → count step_ids id ≤ 1)
    → validate_album_chapters step_ids
        (some (some (default_album_chapter title subtitle step_ids cover ∷ [])))
      ≡ ok tt
unfolding default_album_chapter
validate-default_album_chapter title subtitle step_ids cover some_step distinct =
    (validate_album_chapters_iff (one_chapter title subtitle step_ids cover) step_ids).1 (record {
      some_chapter = refl;
      distinct_ids = λ k. ground arith;
      each_has_steps = ground (arith, some_step);
      covered = λ id.
          rw (append_nil step_ids)
            (ground (arith, distinct id, count_pos step_ids id, count-eq_zero step_ids id));
    })

count-merge_layout :
    (seen names : List String) (name : String)
    → count (merge_layout seen names).0 name
      ≡ (if contains seen name then 0 else if contains names name then 1 else 0)
unfolding merge_layout
count-merge_layout seen [] name = ground arith
count-merge_layout seen (first ∷ names) name = elim (Bool-cases (contains seen first)) [
  | inl known ↦
      ground (arith, known, count-merge_layout seen names name, string_eq.same_iff name first)
  | inr met ↦
      ground
        (arith, met, count-merge_layout (first ∷ seen) names name, string_eq.same_iff name first)
]

contains-merge_layout :
    (seen names : List String) (name : String)
    → contains (merge_layout seen names).1 name ≡ (contains seen name || contains names name)
unfolding merge_layout
contains-merge_layout seen [] name = ground arith
contains-merge_layout seen (first ∷ names) name = elim (Bool-cases (contains seen first)) [
  | inl known ↦
      ground (arith, known, contains-merge_layout seen names name, string_eq.same_iff name first)
  | inr met ↦ ground (arith, met, contains-merge_layout (first ∷ seen) names name)
]

-- the names in the layouts of the steps that have one
abbrev pub names_of : List (Option (List String)) → List String
names_of [] = []
names_of (none ∷ layouts) = names_of layouts
names_of (some names ∷ layouts) = names ++ names_of layouts

count-merge_media :
    (seen : List String) (layouts : List (Option (List String))) (name : String)
    → count (merge_media seen layouts) name
      ≡ (if contains seen name then 0 else if contains (names_of layouts) name then 1 else 0)
unfolding merge_media
count-merge_media seen [] name = ground arith
count-merge_media seen (none ∷ layouts) name = count-merge_media seen layouts name
count-merge_media seen (some names ∷ layouts) name =
    count-append (merge_layout seen names).0 (merge_media (merge_layout seen names).1 layouts) name
    ∙ ground (
      arith,
      count-merge_layout seen names name,
      contains-merge_layout seen names name,
      count-merge_media (merge_layout seen names).1 layouts name,
      contains-append names (names_of layouts) name,
    )

-- Each medium of the layouts has one row in the album, in however many layouts it is, and there are
-- no others.
pub count-merge_all_media :
    (layouts : List (Option (List String))) (name : String)
    → count (merge_media [] layouts) name ≡ (if contains (names_of layouts) name then 1 else 0)
count-merge_all_media layouts name = count-merge_media [] layouts name
