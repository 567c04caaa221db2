-- ===== src/StepMedia.antt =====
-- How a step's pages are stored: backend/app/logic/step_media.py, on the rows of
-- backend/app/models/album_media.py. The tables are those of one album, since every statement is
-- restricted to a uid and an aid. An id is its text. `Rest` are the columns of a step that are
-- carried along. `ORDER BY a, b` is a stable sort by b followed by one by a.
pub mod Order
pub mod Rows
pub mod Saved
pub mod Bulk
pub mod Prepend
pub mod Replace
use wanderbound.Prelude.{
  ℕ, ◌+◌, String, Bool, ◌==◌, string_eq, nat_eq, Option, none, some, List, [], ◌∷◌, ◌++◌, map,
  filter, leb, length, if◌then◌else◌, is_empty, set_union, contains, not,
}
use wanderbound.Prelude.Sorting.{sorted}
use wanderbound.Reconcile.{SlotKind, PageKind, str_leb}

pub data Orientation : Type 0 where
  portrait landscape : Orientation

pub record SlotLayout : Type 0 where
  pub id : String
  pub kind : SlotKind
  pub media_name : Option String
  pub text : Option String
  pub frame_orientation : Orientation
  pub continuation_priority : Option ℕ

pub record PageLayout : Type 0 where
  pub id : String
  pub kind : PageKind
  pub slots : List SlotLayout

pub record StepPage : Type 0 where
  pub step_id : ℕ
  pub id : String
  pub position_index : ℕ
  pub page_kind : PageKind

pub record StepPageSlot : Type 0 where
  pub step_id : ℕ
  pub id : String
  pub page_id : String
  pub position_index : ℕ
  pub kind : SlotKind
  pub media_name : Option String
  pub text_content : Option String
  pub frame_orientation : Orientation
  pub continuation_priority : ℕ

pub record StepUnusedMedia : Type 0 where
  pub step_id : ℕ
  pub position_index : ℕ
  pub media_name : String

pub record StepRow (Rest : Type 0) : Type 0 where
  pub id : ℕ
  pub timestamp : ℕ
  pub cover_media_name : Option String
  pub rest : Rest

pub record StepView (Rest : Type 0) : Type 0 where
  pub id : ℕ
  pub timestamp : ℕ
  pub rest : Rest
  pub cover : Option String
  pub pages : List PageLayout
  pub unused : List String

pub record Tables (Rest : Type 0) : Type 0 where
  pub steps : List (StepRow Rest)
  pub pages : List StepPage
  pub slots : List StepPageSlot
  pub unused : List StepUnusedMedia

unfoldable pub slot_of : StepPageSlot → SlotLayout
slot_of row = record {
  id = row.id;
  kind = row.kind;
  media_name = row.media_name;
  text = row.text_content;
  frame_orientation = row.frame_orientation;
  continuation_priority = some row.continuation_priority;
}

-- `slots_by_page[page_id]`
unfoldable pub slots_by_page : List StepPageSlot → String → List SlotLayout
unfolding slot_of
slots_by_page slot_rows page_id = map slot_of (filter (λ row. row.page_id == page_id) slot_rows)

unfoldable pub page_of : List StepPageSlot → StepPage → PageLayout
unfolding slots_by_page
page_of slot_rows row = record {
  id = row.id;
  kind = row.page_kind;
  slots = slots_by_page slot_rows row.id;
}

unfoldable pub step_to_read :
    {Rest : Type 0}
    → StepRow Rest
    → List StepPage
    → List StepPageSlot
    → List StepUnusedMedia
    → StepView Rest
unfolding page_of
step_to_read step page_rows slot_rows unused_rows = record {
  id = step.id;
  timestamp = step.timestamp;
  rest = step.rest;
  cover = step.cover_media_name;
  pages = map (page_of slot_rows) page_rows;
  unused = map (λ row. row.media_name) unused_rows;
}

abbrev pub pages_in_order : List StepPage → List StepPage
pages_in_order = sorted (λ a b. leb a.position_index b.position_index)

abbrev pub slots_in_order : List StepPageSlot → List StepPageSlot
slots_in_order rows =
    sorted (λ a b. str_leb a.page_id b.page_id)
      (sorted (λ a b. leb a.position_index b.position_index) rows)

abbrev pub unused_in_order : List StepUnusedMedia → List StepUnusedMedia
unused_in_order = sorted (λ a b. leb a.position_index b.position_index)

module _ {Rest : Type 0} where
  unfoldable pub find_step : List (StepRow Rest) → ℕ → Option (StepRow Rest)
  find_step [] step_id = none
  find_step (step ∷ steps) step_id =
      if step.id == step_id then some step else find_step steps step_id

  -- the three queries of a step, and what is made of them
  unfoldable pub read_rows : Tables Rest → StepRow Rest → StepView Rest
  unfolding step_to_read
  read_rows tables step =
      step_to_read step (pages_in_order (filter (λ row. row.step_id == step.id) tables.pages))
        (slots_in_order (filter (λ row. row.step_id == step.id) tables.slots))
        (unused_in_order (filter (λ row. row.step_id == step.id) tables.unused))

  -- `none` is the error of `get_one`.
  unfoldable pub read_step_with_media : Tables Rest → ℕ → Option (StepView Rest)
  unfolding find_step read_rows
  read_step_with_media tables step_id = elim (find_step tables.steps step_id) [
    | none ↦ none
    | some step ↦ some (read_rows tables step)
  ]

  -- One query per table for all the steps, whose rows are then grouped by step.
  unfoldable pub read_steps_with_media : Tables Rest → List (StepView Rest)
  unfolding step_to_read
  read_steps_with_media tables =
      let page_rows = sorted (λ a b. leb a.step_id b.step_id) (pages_in_order tables.pages) in
      let slot_rows = sorted (λ a b. leb a.step_id b.step_id) (slots_in_order tables.slots) in
      let unused_rows = sorted (λ a b. leb a.step_id b.step_id) (unused_in_order tables.unused) in
      map
        (λ step.
          step_to_read step (filter (λ row. row.step_id == step.id) page_rows)
            (filter (λ row. row.step_id == step.id) slot_rows)
            (filter (λ row. row.step_id == step.id) unused_rows))
        (sorted (λ a b. leb a.timestamp b.timestamp) (sorted (λ a b. leb a.id b.id) tables.steps))

-- `enumerate(pages)` from an index on
unfoldable pub page_rows : ℕ → ℕ → List PageLayout → List StepPage
page_rows step_id index [] = []
page_rows step_id index (page ∷ pages) =
    record { step_id = step_id; id = page.id; position_index = index; page_kind = page.kind }
    ∷ page_rows step_id (index + 1) pages

unfoldable pub priority_or : Option ℕ → ℕ → ℕ
priority_or none default = default
priority_or (some priority) default = priority

-- `before` is the number of slots on the pages before.
unfoldable pub page_slot_rows : ℕ → String → ℕ → ℕ → List SlotLayout → List StepPageSlot
unfolding priority_or
page_slot_rows step_id page_id before index [] = []
page_slot_rows step_id page_id before index (slot ∷ slots) =
    record {
      step_id = step_id;
      id = slot.id;
      page_id = page_id;
      position_index = index;
      kind = slot.kind;
      media_name = slot.media_name;
      text_content = slot.text;
      frame_orientation = slot.frame_orientation;
      continuation_priority = priority_or slot.continuation_priority (before + index);
    }
    ∷ page_slot_rows step_id page_id before (index + 1) slots

unfoldable pub slot_rows : ℕ → ℕ → List PageLayout → List StepPageSlot
unfolding page_slot_rows
slot_rows step_id before [] = []
slot_rows step_id before (page ∷ pages) =
    page_slot_rows step_id page.id before 0 page.slots
    ++ slot_rows step_id (before + length page.slots) pages

unfoldable pub unused_rows : ℕ → ℕ → List String → List StepUnusedMedia
unused_rows step_id index [] = []
unused_rows step_id index (media_name ∷ names) =
    record { step_id = step_id; position_index = index; media_name = media_name }
    ∷ unused_rows step_id (index + 1) names

module _ {Rest : Type 0} where
  -- `session.add_all(step_media_rows(…))`
  unfoldable pub step_media_rows : Tables Rest → ℕ → List PageLayout → List String → Tables Rest
  unfolding page_rows slot_rows unused_rows
  step_media_rows tables step_id pages unused = record tables {
    pages = tables.pages ++ page_rows step_id 0 pages;
    slots = tables.slots ++ slot_rows step_id 0 pages;
    unused = tables.unused ++ unused_rows step_id 0 unused;
  }

  unfoldable pub prepend_step_unused_media : Tables Rest → ℕ → List String → Tables Rest
  unfolding unused_rows
  prepend_step_unused_media tables step_id names =
      let existing = unused_in_order (filter (λ row. row.step_id == step_id) tables.unused) in
      let merged = names ++ map (λ row. row.media_name) existing in
      record tables {
        unused =
            filter (λ row. not (row.step_id == step_id)) tables.unused
            ++ unused_rows step_id 0 merged;
      }
