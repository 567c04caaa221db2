-- ===== src/Reconcile.antt =====
-- How backend/app/logic/reconcile.py fits an album that the user has edited to the media and steps
-- of a new upload. A set of names is a list; `Text` is what a slot holds besides a photo, `Place`
-- and `Weather` are the parts of a step that are carried along. `all_on_disk` are the normalized
-- names of the files in the trip's folder, and `disk_media` those found in the step's own folders.
mod Pages
pub mod Steps
pub mod Assignment
pub mod Covers
use Prim.Native.String.{compare}
use package.text.Mathlib.Text.{is_le}
use wanderbound.Prelude.{
  ℕ, String, Bool, true, false, not, ◌&&◌, ◌||◌, Option, none, some, List, [], ◌∷◌, ◌++◌, map,
  contains, set_add, set_union, nat_eq, string_eq, ◌==◌, filter, any, flatten, leb, is_empty,
  if◌then◌else◌,
}
use wanderbound.Prelude.Sorting.{sorted}
use wanderbound.Layout.Step.{Media, is_portrait}
use wanderbound.Chapters.{Chapter}

-- Python orders text by code points, as UTF-8 does by bytes.
abbrev pub str_leb : String → String → Bool
str_leb a b = is_le (compare a b)

pub data SlotKind : Type 0 where
  photo text : SlotKind

pub record Slot (Text : Type 0) : Type 0 where
  pub id : String
  pub kind : SlotKind
  pub media_name : Option String
  pub content : Text

pub data PageKind : Type 0 where
  grid panorama_spread : PageKind

pub record Page (Text : Type 0) : Type 0 where
  pub id : String
  pub kind : PageKind
  pub slots : List (Slot Text)

-- the fields that the upload brings for a step
pub record PsStep (Place : Type 0) : Type 0 where
  pub name : String
  pub description : String
  pub timestamp : ℕ
  pub timezone_id : String
  pub location : Place

pub record StepRead (Text Place Weather : Type 0) : Type 0 where
  pub id : ℕ
  pub ps : PsStep Place
  pub elevation : ℕ
  pub weather : Weather
  pub cover : Option String
  pub pages : List (Page Text)
  pub unused : List String

-- `if step.cover`: neither null nor empty
unfoldable pub cover_names : Option String → List String
cover_names none = []
cover_names (some name) = if name == "" then [] else name ∷ []

-- the name in a photo slot that has one
unfoldable pub photo_name : SlotKind → Option String → List String
photo_name photo (some name) = name ∷ []
photo_name _ _ = []

-- `kind == "text" or media_name not in missing`
unfoldable pub keeps : List String → SlotKind → Option String → Bool
keeps missing text _ = true
keeps missing photo none = true
keeps missing photo (some name) = not (contains missing name)

-- `m := media_by_name.get(f)` and `m.is_portrait`
unfoldable pub portrait_in : (String → Option Media) → String → Bool
portrait_in media_by_name name = elim (media_by_name name) [ none ↦ false | some m ↦ is_portrait m ]

unfoldable pub first_name : List String → Option String
first_name [] = none
first_name (name ∷ _) = some name

-- `step.cover and step.cover in missing`
unfoldable pub cover_lost : List String → Option String → Bool
unfolding cover_names
cover_lost missing cover = any (contains missing) (cover_names cover)

module _ {Text : Type 0} where
  -- `StepPageLayout.media`
  unfoldable pub page_media : Page Text → List String
  unfolding photo_name
  page_media page = flatten (map (λ slot. photo_name slot.kind slot.media_name) page.slots)

  unfoldable pub pages_media : List (Page Text) → List String
  unfolding page_media
  pages_media pages = flatten (map page_media pages)

  unfoldable pub keep_slots : List String → Page Text → Page Text
  unfolding keeps
  keep_slots missing page = record page {
    slots = filter (λ slot. keeps missing slot.kind slot.media_name) page.slots;
  }

  unfoldable pub keep_pages : List String → List (Page Text) → List (Page Text)
  unfolding keep_slots
  keep_pages missing pages =
      filter (λ page. not (is_empty page.slots)) (map (keep_slots missing) pages)

  unfoldable pub pick_cover :
      List (Page Text) → List String → (String → Option Media) → Option String
  unfolding pages_media portrait_in first_name
  pick_cover pages unused media_by_name =
      let candidates = pages_media pages ++ unused in
      let portraits = filter (portrait_in media_by_name) candidates in
      if is_empty portraits then first_name candidates else first_name portraits

module _ {Text Place Weather : Type 0} where
  -- `old_media`: what the step refers to
  unfoldable pub old_media : StepRead Text Place Weather → List String
  unfolding pages_media cover_names
  old_media step = pages_media step.pages ++ (cover_names step.cover ++ step.unused)

  unfoldable pub reconcile_step :
      StepRead Text Place Weather
      → PsStep Place
      → List String
      → List String
      → (String → Option Media)
      → StepRead Text Place Weather
  unfolding old_media keep_pages cover_lost pick_cover
  reconcile_step step ps_step disk_media all_on_disk media_by_name =
      let old = old_media step in
      let missing = filter (λ name. not (contains all_on_disk name)) old in
      let added =
        set_union []
          (filter (λ name. not (contains old name) && contains all_on_disk name) disk_media) in
      let pages = keep_pages missing step.pages in
      let unused =
        filter (λ name. not (contains missing name)) step.unused ++ sorted str_leb added in
      let cover =
        if cover_lost missing step.cover
        then pick_cover pages unused media_by_name
        else step.cover in
      record step { ps = ps_step; cover = cover; pages = pages; unused = unused }
