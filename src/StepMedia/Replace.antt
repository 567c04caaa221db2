-- ===== src/StepMedia/Replace.antt =====
-- `replace_step_media_layout` of backend/app/logic/step_media.py: a step gets another layout. A row
-- that is changed is put last in its table, since the rows of a table have no order. Pages and slots
-- of a layout are told apart by their ids, as `StepMediaLayout` validates.
pub mod Put
pub mod Others
pub mod Shown
pub mod Kept
use wanderbound.Prelude.{
  ℕ, zero, suc, ◌+◌, String, Bool, true, false, not, ◌&&◌, ◌||◌, ◌==◌, string_eq, nat_eq, Option,
  none, some, List, [], ◌∷◌, ◌++◌, map, filter, flatten, contains, set_union, max, length, is_empty,
  if◌then◌else◌,
}
use wanderbound.Prelude.Sorting.{sorted}
use wanderbound.Reconcile.{str_leb}
use wanderbound.StepMedia.{
  SlotLayout, PageLayout, StepPage, StepPageSlot, StepUnusedMedia, StepRow, StepView, Tables,
  find_step, read_step_with_media, page_rows, unused_rows,
}

pub record StepMediaLayout : Type 0 where
  pub cover : Option String
  pub pages : List PageLayout
  pub unused : List String

unfoldable pub slot_names : List SlotLayout → List String
slot_names [] = []
slot_names (slot ∷ slots) = elim slot.media_name [
  | none ↦ slot_names slots
  | some name ↦ name ∷ slot_names slots
]

unfoldable pub layout_names : StepMediaLayout → List String
unfolding slot_names
layout_names layout =
    let names =
      flatten (map (λ (p : PageLayout). slot_names p.slots) layout.pages) ++ layout.unused in
    elim layout.cover [ none ↦ names | some name ↦ names ++ name ∷ [] ]

-- the names that the album has no media for
unfoldable pub validate_media_names : List String → List String → List String
unfolding sorted
validate_media_names existing names =
    sorted str_leb (filter (λ name. not (contains existing name)) (set_union [] names))

unfoldable pub find_slot : List StepPageSlot → ℕ → String → Option StepPageSlot
find_slot [] step_id id = none
find_slot (row ∷ rows) step_id id =
    if row.step_id == step_id && row.id == id then some row else find_slot rows step_id id

-- one more than the greatest priority of the step, or 0
unfoldable pub next_priority : List StepPageSlot → ℕ → ℕ
next_priority [] step_id = 0
next_priority (row ∷ rows) step_id =
    let rest = next_priority rows step_id in
    if row.step_id == step_id then max (suc row.continuation_priority) rest else rest

unfoldable pub has_page : List PageLayout → String → Bool
has_page pages id = contains (map (λ (p : PageLayout). p.id) pages) id

unfoldable pub slot_ids : List PageLayout → List String
slot_ids pages = flatten (map (λ (p : PageLayout). map (λ (s : SlotLayout). s.id) p.slots) pages)

unfoldable pub delete_slots : ℕ → List String → List StepPageSlot → List StepPageSlot
delete_slots step_id kept rows =
    filter (λ (row : StepPageSlot). not (row.step_id == step_id && not (contains kept row.id))) rows

unfoldable pub put_page : List StepPage → StepPage → List StepPage
put_page rows page =
    filter (λ (row : StepPage). not (row.step_id == page.step_id && row.id == page.id)) rows
    ++ page ∷ []

unfoldable pub put_pages : List StepPage → List StepPage → List StepPage
unfolding put_page
put_pages rows [] = rows
put_pages rows (page ∷ pages) = put_pages (put_page rows page) pages

unfoldable pub put_slot : List StepPageSlot → StepPageSlot → List StepPageSlot
put_slot rows slot =
    filter (λ (row : StepPageSlot). not (row.step_id == slot.step_id && row.id == slot.id)) rows
    ++ slot ∷ []

unfoldable pub put_slots : List StepPageSlot → List StepPageSlot → List StepPageSlot
unfolding put_slot
put_slots rows [] = rows
put_slots rows (slot ∷ slots) = put_slots (put_slot rows slot) slots

-- the row of a slot with its priority
unfoldable pub slot_row : ℕ → String → ℕ → SlotLayout → ℕ → StepPageSlot
slot_row step_id page_id index slot priority = record {
  step_id = step_id;
  id = slot.id;
  page_id = page_id;
  position_index = index;
  kind = slot.kind;
  media_name = slot.media_name;
  text_content = slot.text;
  frame_orientation = slot.frame_orientation;
  continuation_priority = priority;
}

-- The rows of a page and the next priority: a slot that is stored keeps its priority, whatever the
-- layout says, and a new one gets the next.
unfoldable pub saved_slots :
    List StepPageSlot → ℕ → String → ℕ → List SlotLayout → ℕ → List StepPageSlot × ℕ
unfolding find_slot slot_row
saved_slots existing step_id page_id index [] next = ([], next)
saved_slots existing step_id page_id index (slot ∷ slots) next =
    let old = saved_slots existing step_id page_id (index + 1) slots next in
    let new = saved_slots existing step_id page_id (index + 1) slots (suc next) in
    elim (find_slot existing step_id slot.id) [
      | none ↦ (slot_row step_id page_id index slot next ∷ new.0, new.1)
      | some row ↦ (slot_row step_id page_id index slot row.continuation_priority ∷ old.0, old.1)
    ]

unfoldable pub saved_pages : List StepPageSlot → ℕ → List PageLayout → ℕ → List StepPageSlot
unfolding saved_slots
saved_pages existing step_id [] next = []
saved_pages existing step_id (page ∷ pages) next =
    let first = saved_slots existing step_id page.id 0 page.slots next in
    first.0 ++ saved_pages existing step_id pages first.1

unfoldable pub delete_pages : ℕ → List PageLayout → List StepPage → List StepPage
unfolding has_page
delete_pages step_id pages rows =
    filter (λ (row : StepPage). not (row.step_id == step_id && not (has_page pages row.id))) rows

-- the slots of a page are deleted with it
unfoldable pub cascade_slots : ℕ → List PageLayout → List StepPageSlot → List StepPageSlot
unfolding has_page
cascade_slots step_id pages rows =
    filter
      (λ (row : StepPageSlot). not (row.step_id == step_id && not (has_page pages row.page_id)))
      rows

pub data LayoutReplaced (Rest : Type 0) : Type 0 where
  step_not_found : LayoutReplaced Rest
  media_not_found : List String → LayoutReplaced Rest
  replaced : Tables Rest → Option (StepView Rest) → LayoutReplaced Rest

module _ {Rest : Type 0} where
  unfoldable pub set_cover : ℕ → Option String → StepRow Rest → StepRow Rest
  set_cover step_id cover step =
      if step.id == step_id then record step { cover_media_name = cover } else step

  unfoldable pub replaced_tables : Tables Rest → ℕ → StepMediaLayout → Tables Rest
  unfolding page_rows unused_rows slot_ids delete_slots put_pages put_slots saved_pages
      next_priority delete_pages cascade_slots set_cover
  replaced_tables tables step_id layout = record {
    steps = map (set_cover step_id layout.cover) tables.steps;
    pages =
        delete_pages step_id layout.pages
          (put_pages tables.pages (page_rows step_id 0 layout.pages));
    slots = cascade_slots step_id layout.pages (
        put_slots (delete_slots step_id (slot_ids layout.pages) tables.slots)
          (saved_pages tables.slots step_id layout.pages (next_priority tables.slots step_id)));
    unused =
        filter (λ (row : StepUnusedMedia). not (row.step_id == step_id)) tables.unused
        ++ unused_rows step_id 0 layout.unused;
  }

  unfoldable pub replace_step_media_layout :
      List String → Tables Rest → ℕ → StepMediaLayout → LayoutReplaced Rest
  unfolding find_step validate_media_names layout_names replaced_tables read_step_with_media
  replace_step_media_layout media tables step_id layout =
      let missing = validate_media_names media (layout_names layout) in
      let after = replaced_tables tables step_id layout in
      elim (find_step tables.steps step_id) [
        | none ↦ step_not_found
        | some step ↦
            if is_empty missing
            then replaced after (read_step_with_media after step_id)
            else media_not_found missing
      ]
