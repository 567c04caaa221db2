-- ===== src/Tests/ReplaceRuns.antt =====
-- A step with one stored slot gets a layout that moves the slot and adds one.
use wanderbound.Prelude.{
  ℕ, ◌≤◌, ◌≡◌, refl, sym, subst, Bool-cases, inl, inr, arith, String, ◌==◌, string_eq, nat_eq,
  Option, some, none, [], ◌∷◌, map, count,
}
use wanderbound.Reconcile.{photo, grid}
use wanderbound.StepMedia.{
  SlotLayout, PageLayout, landscape, StepPageSlot, StepRow, Tables, find_step, read_step_with_media,
}
use wanderbound.StepMedia.Replace.{
  StepMediaLayout, layout_names, validate_media_names, slot_ids, next_priority, find_slot,
  replaced_tables, replaced, replace_step_media_layout,
}
use wanderbound.StepMedia.Replace.Shown.{replace_step_media_layout-shown}
use wanderbound.StepMedia.Replace.Others.{read_step_with_media-replaced_tables}

abbrev slot : String → Option ℕ → SlotLayout
slot name priority = record {
  id = name;
  kind = photo;
  media_name = some name;
  text = none;
  frame_orientation = landscape;
  continuation_priority = priority;
}

abbrev stored : StepPageSlot
stored = record {
  step_id = 3;
  id = "a";
  page_id = "p";
  position_index = 0;
  kind = photo;
  media_name = some "a";
  text_content = none;
  frame_orientation = landscape;
  continuation_priority = 4;
}

abbrev step : ℕ → StepRow ℕ
step i = record { id = i; timestamp = i; cover_media_name = none; rest = 0 }

abbrev tables : Tables ℕ
tables = record {
  steps = step 2 ∷ step 3 ∷ [];
  pages = record { step_id = 3; id = "p"; position_index = 0; page_kind = grid } ∷ [];
  slots = stored ∷ [];
  unused = record { step_id = 2; position_index = 0; media_name = "x" } ∷ [];
}

abbrev layout : StepMediaLayout
layout = record {
  cover = some "a";
  pages = record { id = "q"; kind = grid; slots = slot "b" none ∷ slot "a" none ∷ [] } ∷ [];
  unused = "c" ∷ [];
}

pages_once : (k : String) → count (map (λ (p : PageLayout). p.id) layout.pages) k ≤ 1
pages_once k = ground arith

slots_once : (k : String) → count (slot_ids layout.pages) k ≤ 1
unfolding slot_ids
slots_once k = elim (Bool-cases (k == "a")) [
  | inl same ↦
      subst (λ c. count (slot_ids layout.pages) c ≤ 1) (sym ((string_eq.same_iff k "a").0 same))
        (omega arith)
  | inr apart ↦ ground (arith, apart)
]

replace_step_media_layout-shown_example :
    replace_step_media_layout ("a" ∷ "b" ∷ "c" ∷ []) tables 3 layout
    ≡ replaced (replaced_tables tables 3 layout) (
        some (record {
          id = 3;
          timestamp = 3;
          rest = 0;
          cover = some "a";
          pages =
              record { id = "q"; kind = grid; slots = slot "b" (some 5) ∷ slot "a" (some 4) ∷ [] }
              ∷ [];
          unused = "c" ∷ [];
        }))
unfolding find_step validate_media_names layout_names find_slot next_priority
replace_step_media_layout-shown_example =
    replace_step_media_layout-shown ("a" ∷ "b" ∷ "c" ∷ []) tables (step 3) layout refl refl
      pages_once slots_once

read_step_with_media-replaced_tables_example :
    read_step_with_media (replaced_tables tables 3 layout) 2 ≡ read_step_with_media tables 2
read_step_with_media-replaced_tables_example =
    read_step_with_media-replaced_tables tables 3 2 layout refl
