-- ===== src/StepMedia/Bulk.antt =====
-- Reading all the steps of an album at once.
use wanderbound.Prelude.{
  ℕ, ◌≡◌, refl, sym, ◌∙◌, ap, arith, String, Bool, ◌==◌, string_eq, nat_eq, List, [], ◌∷◌, map,
  filter, leb,
}
use wanderbound.Prelude.Sorting.{sorted}
use wanderbound.StepMedia.{
  StepPage, StepPageSlot, StepUnusedMedia, StepRow, Tables, slot_of, slots_by_page, page_of,
  step_to_read, pages_in_order, slots_in_order, read_rows, read_steps_with_media,
}
use wanderbound.StepMedia.Order.{filter-sorted_same, filter-sorted}
use wanderbound.StepMedia.Saved.{by_position, filter-slots_in_order}

module _ {A : Type 0} where
  filter_swap : (p q : A → Bool) (xs : List A) → filter p (filter q xs) ≡ filter q (filter p xs)
  filter_swap p q [] = refl
  filter_swap p q (x ∷ xs) = ground (arith, filter_swap p q xs)

  map_congr :
      {B : Type 0} (f g : A → B) → ((a : A) → f a ≡ g a) → (xs : List A) → map f xs ≡ map g xs
  map_congr f g h [] = refl
  map_congr f g h (x ∷ xs) = rw (h x, map_congr f g h xs) refl

  -- The rows of one step, grouped out of all the rows, are the rows that a query for the step gives.
  grouped :
      (step_of position : A → ℕ) (i : ℕ) (rows : List A)
      → filter
          (λ row. step_of row == i)
          (sorted
            (λ a b. leb (step_of a) (step_of b))
            (sorted (λ a b. leb (position a) (position b)) rows))
        ≡ sorted (λ a b. leb (position a) (position b)) (filter (λ row. step_of row == i) rows)
  grouped step_of position i rows =
      filter-sorted_same (λ a b. leb (step_of a) (step_of b)) (λ row. step_of row == i)
        (λ a b h l. ground arith) (sorted (λ a b. leb (position a) (position b)) rows)
      ∙ filter-sorted (λ a b. leb (position a) (position b)) (λ row. step_of row == i)
          (λ a b h. ground arith) (λ a b c h l. ground arith) rows

slots_grouped :
    (i : ℕ) (rows : List StepPageSlot) (k : String)
    → slots_by_page
        (filter
          (λ row. row.step_id == i)
          (sorted (λ a b. leb a.step_id b.step_id) (slots_in_order rows)))
        k
      ≡ slots_by_page (slots_in_order (filter (λ row. row.step_id == i) rows)) k
unfolding slots_by_page
slots_grouped i rows k =
    let on_page : StepPageSlot → Bool = λ row. row.page_id == k in
    let of_step : StepPageSlot → Bool = λ row. row.step_id == i in
    ap (map slot_of) (
      ap (filter on_page) (
        filter-sorted_same (λ a b. leb a.step_id b.step_id) of_step (λ a b h l. ground arith)
          (slots_in_order rows))
      ∙ filter_swap on_page of_step (slots_in_order rows)
      ∙ ap (filter of_step) (filter-slots_in_order rows k)
      ∙ filter-sorted by_position of_step (λ a b h. ground arith) (λ a b c h l. ground arith)
          (filter on_page rows)
      ∙ ap (sorted by_position) (filter_swap of_step on_page rows)
      ∙ sym (filter-slots_in_order (filter of_step rows) k))

page_of-grouped :
    (i : ℕ) (rows : List StepPageSlot) (row : StepPage)
    → page_of
        (filter
          (λ r. r.step_id == i)
          (sorted (λ a b. leb a.step_id b.step_id) (slots_in_order rows)))
        row
      ≡ page_of (slots_in_order (filter (λ r. r.step_id == i) rows)) row
unfolding page_of
page_of-grouped i rows row = rw (slots_grouped i rows row.id) refl

module _ {Rest : Type 0} where
  -- the steps of an album by time, and by id where the times are equal
  abbrev pub steps_in_order : Tables Rest → List (StepRow Rest)
  steps_in_order tables =
      sorted (λ a b. leb a.timestamp b.timestamp) (sorted (λ a b. leb a.id b.id) tables.steps)

  -- All the steps of an album, read with one query per table, are the steps read one by one, in
  -- the order of time.
  pub read_steps_with_media-read_rows :
      (tables : Tables Rest)
      → read_steps_with_media tables ≡ map (read_rows tables) (steps_in_order tables)
  unfolding read_steps_with_media read_rows step_to_read
  read_steps_with_media-read_rows tables =
      map_congr _ (read_rows tables)
        (λ step.
          rw
            (
              grouped (λ (row : StepPage). row.step_id) (λ (row : StepPage). row.position_index)
                  step.id tables.pages,
              grouped (λ (row : StepUnusedMedia). row.step_id)
                  (λ (row : StepUnusedMedia). row.position_index) step.id tables.unused,
              map_congr _ _ (page_of-grouped step.id tables.slots)
                  (pages_in_order (filter (λ row. row.step_id == step.id) tables.pages)),
            )
            refl)
        (steps_in_order tables)
