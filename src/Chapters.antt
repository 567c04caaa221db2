-- ===== src/Chapters.antt =====
-- The checks that backend/app/logic/chapters.py makes before an album's chapters are replaced. A
-- Python set is a list that an element is added to once. The two numbers of a chapter's look
-- (darkness and spine width) are left out, since nothing here reads or changes them.
pub mod Scanned
mod Coverage
pub mod Partition
pub mod Update
pub mod Scope
pub mod Overlap
use wanderbound.Prelude.{
  ℕ, String, Bool, true, false, not, Option, none, some, List, [], ◌∷◌, ◌++◌, map, contains,
  set_add, set_union, nat_eq, string_eq, filter, leb, is_empty, if◌then◌else◌,
}
use wanderbound.Prelude.Sorting.{sorted}

pub record Chapter : Type 0 where
  pub id : String
  pub title : String
  pub subtitle : String
  pub step_ids : List ℕ
  pub front_cover_photo : String
  pub back_cover_photo : String

pub data ChapterError : Type 0 where
  no_chapters : ChapterError
  duplicate_chapter : String → ChapterError
  no_steps : String → ChapterError
  already_assigned : ℕ → ChapterError
  unknown_steps : List ℕ → ChapterError
  missing_steps : List ℕ → ChapterError

pub data Result {ℓ} (A : Type ℓ) : Type ℓ where
  ok : A → Result A
  err : ChapterError → Result A

infixl 5 ◌>>=◌ ◌>>◌
abbrev pub ◌>>=◌ {ℓ κ} : {A : Type ℓ} {B : Type κ} → Result A → (A → Result B) → Result B
ok a >>= f = f a
err e >>= f = err e

abbrev pub ◌>>◌ {ℓ κ} : {A : Type ℓ} {B : Type κ} → Result A → Result B → Result B
m >> k = m >>= λ _. k

-- the variables of `_validate_chapter_payload`
pub record Scan : Type 0 where
  pub assigned : List ℕ
  pub duplicates : List ℕ
  pub requested : List ℕ
  pub chapter_ids : List String

abbrev pub fresh_scan : Scan
fresh_scan = record { assigned = []; duplicates = []; requested = []; chapter_ids = [] }

unfoldable pub scan_step : Scan → ℕ → Scan
scan_step s step_id = record s {
  assigned = set_add s.assigned step_id;
  duplicates = if contains s.assigned step_id then s.duplicates ++ step_id ∷ [] else s.duplicates;
  requested = set_add s.requested step_id;
}

unfoldable pub scan_steps : Scan → List ℕ → Scan
unfolding scan_step
scan_steps s [] = s
scan_steps s (step_id ∷ step_ids) = scan_steps (scan_step s step_id) step_ids

unfoldable pub scan_chapter : Scan → Chapter → Result Scan
unfolding scan_steps
scan_chapter s chapter =
    if contains s.chapter_ids chapter.id
    then err (duplicate_chapter chapter.id)
    else if is_empty chapter.step_ids
    then err (no_steps chapter.id)
    else ok
        (scan_steps (record s { chapter_ids = set_add s.chapter_ids chapter.id }) chapter.step_ids)

unfoldable pub scan_chapters : Scan → List Chapter → Result Scan
unfolding scan_chapter
scan_chapters s [] = ok s
scan_chapters s (chapter ∷ chapters) = do s' ← scan_chapter s chapter; scan_chapters s' chapters

unfoldable pub no_duplicate : Scan → List ℕ → Result (List ℕ)
no_duplicate s [] = ok s.requested
no_duplicate s (step_id ∷ _) = err (already_assigned step_id)

unfoldable pub validate_chapter_payload : List Chapter → Result (List ℕ)
unfolding scan_chapters no_duplicate
validate_chapter_payload chapters = do
  s ← scan_chapters fresh_scan chapters
  no_duplicate s s.duplicates

-- `a - b` of two sets
unfoldable pub set_difference : List ℕ → List ℕ → List ℕ
set_difference a b = filter (λ x. not (contains b x)) a

unfoldable pub expect_none : (List ℕ → ChapterError) → List ℕ → Result (Unit {0})
expect_none e [] = ok tt
expect_none e (x ∷ xs) = err (e (x ∷ xs))

unfoldable pub validate_step_coverage : List ℕ → List ℕ → Result (Unit {0})
unfolding set_difference expect_none
validate_step_coverage requested existing = do
  expect_none unknown_steps (sorted leb (set_difference requested existing))
  expect_none missing_steps (sorted leb (set_difference existing requested))

-- `update.chapters`: unset, null or a list. `stored` are the rows that `_album_step_ids` selects.
unfoldable pub validate_album_chapters : List ℕ → Option (Option (List Chapter)) → Result (Unit {0})
unfolding validate_chapter_payload validate_step_coverage
validate_album_chapters stored none = ok tt
validate_album_chapters stored (some none) = err no_chapters
validate_album_chapters stored (some (some [])) = err no_chapters
validate_album_chapters stored (some (some (chapter ∷ chapters))) = do
  requested ← validate_chapter_payload (chapter ∷ chapters)
  validate_step_coverage requested (set_union [] stored)
