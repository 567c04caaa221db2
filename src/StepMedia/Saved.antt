-- ===== src/StepMedia/Saved.antt =====
-- Writing the layout of a step and reading the step.
use Prim.Native.String.{compare}
use package.text.Mathlib.Text.{is_le, is_eq}
use Prim.Native.Nat.{Ordering}
use text.Mathlib.TextEquality.{eq_iff}
use wanderbound.Prelude.{
  ℕ, ◌+◌, ◌≤◌, ◌≡◌, refl, sym, ◌∙◌, ap, subst, arith, String, Bool, true, false, ◌==◌, string_eq,
  nat_eq, eq_refl, List, [], ◌∷◌, ◌++◌, map, filter, filter-append, append_nil, filter_of_all, all,
  leb, length, count, contains, count_pos, Bool-cases, inl, inr,
}
use wanderbound.Prelude.Sorting.{sorted}
use wanderbound.Reconcile.{str_leb}
use wanderbound.StepMedia.{
  PageLayout, StepPage, StepPageSlot, StepUnusedMedia, StepRow, Tables, slot_of, slots_by_page,
  page_of, step_to_read, pages_in_order, slots_in_order, unused_in_order, read_rows, page_rows,
  page_slot_rows, slot_rows, unused_rows, step_media_rows,
}
use wanderbound.StepMedia.Order.{sorted_of_IsSorted, filter-sorted_same, filter-sorted}
use wanderbound.StepMedia.Rows.{
  filled_slots, filled_pages, page_rows-step, unused_rows-step, page_slot_rows-keys, slot_rows-step,
  page_rows-IsSorted, unused_rows-IsSorted, slots-IsSorted, slot_of-rows, names-unused,
  filter-other_page, filter-unknown_page,
}

is_le_of_eq : (o : Ordering) → is_eq o ≡ true → is_le o ≡ true
is_le_of_eq Ordering.lt h = refl
is_le_of_eq Ordering.eq h = refl
is_le_of_eq Ordering.gt h = absurd cc

str_leb_same : (a b k : String) → (a == k) ≡ true → (b == k) ≡ true → str_leb a b ≡ true
str_leb_same a b k h l =
    is_le_of_eq (compare a b) (subst (λ c. (a == c) ≡ true) (sym ((eq_iff b k).0 l)) h)

abbrev pub by_position : StepPageSlot → StepPageSlot → Bool
by_position a b = leb a.position_index b.position_index

-- the rows of one page, as the query gives them
pub filter-slots_in_order :
    (rows : List StepPageSlot) (k : String)
    → filter (λ row. row.page_id == k) (slots_in_order rows)
      ≡ sorted by_position (filter (λ row. row.page_id == k) rows)
filter-slots_in_order rows k =
    filter-sorted_same (λ a b. str_leb a.page_id b.page_id) (λ row. row.page_id == k)
      (λ a b h l. str_leb_same a.page_id b.page_id k h l) (sorted by_position rows)
    ∙ filter-sorted by_position (λ row. row.page_id == k) (λ a b h. ground arith)
        (λ a b c h l. ground arith) rows

slots_by_page-in_order :
    (rows : List StepPageSlot) (k : String)
    → slots_by_page (slots_in_order rows) k
      ≡ map slot_of (sorted by_position (filter (λ row. row.page_id == k) rows))
unfolding slots_by_page
slots_by_page-in_order rows k = ap (map slot_of) (filter-slots_in_order rows k)

told_apart :
    (xs : List String) (a b : String)
    → contains xs a ≡ false
    → contains xs b ≡ true
    → (a == b) ≡ false
told_apart xs a b h l = elim (Bool-cases (a == b)) [
  | inl equal ↦
      absurd (ground (arith, h, subst (λ c. contains xs c ≡ true) (sym ((eq_iff a b).0 equal)) l))
  | inr apart ↦ apart
]

-- The pages read are the pages written, where the rows of each page are those written for it.
map-page_of :
    (i before index : ℕ) (pages : List PageLayout) (rows : List StepPageSlot)
    → ((k : String) → count (map (λ page. page.id) pages) k ≤ 1)
    → ((k : String)
        → contains (map (λ page. page.id) pages) k ≡ true
        → slots_by_page rows k
          ≡ map slot_of
              (sorted by_position (filter (λ row. row.page_id == k) (slot_rows i before pages))))
    → map (page_of rows) (page_rows i index pages) ≡ filled_pages before pages
unfolding page_of page_rows slot_rows
map-page_of i before index [] rows once same = refl
map-page_of i before index (page ∷ pages) rows once same =
    let head = page_slot_rows i page.id before 0 page.slots in
    let tail = slot_rows i (before + length page.slots) pages in
    let alone : contains (map (λ (p : PageLayout). p.id) pages) page.id ≡ false = ground (
      arith,
      once page.id,
      eq_refl page.id,
      count_pos (map (λ (p : PageLayout). p.id) pages) page.id,
    ) in
    let here : slots_by_page rows page.id ≡ filled_slots before 0 page.slots =
      same page.id (ground (arith, eq_refl page.id))
      ∙ ap (λ xs. map slot_of (sorted by_position xs))
          (filter-append (λ (row : StepPageSlot). row.page_id == page.id) head tail
            ∙ rw (filter-unknown_page i (before + length page.slots) page.id pages alone) (
                append_nil (filter (λ (row : StepPageSlot). row.page_id == page.id) head)
                ∙ filter_of_all (λ (row : StepPageSlot). row.page_id == page.id) head
                    (page_slot_rows-keys i before 0 page.id page.slots).1))
      ∙ ap (map slot_of)
          (sorted_of_IsSorted by_position head (slots-IsSorted i before 0 page.id page.slots))
      ∙ slot_of-rows i before 0 page.id page.slots in
    let rest =
      map-page_of i (before + length page.slots) (index + 1) pages rows (λ k. omega (arith, once k))
        (λ k known.
          same k (ground (arith, known))
          ∙ ap (λ xs. map slot_of (sorted by_position xs))
              (filter-append (λ (row : StepPageSlot). row.page_id == k) head tail
                ∙ rw
                    (filter-other_page i before 0 k page.id page.slots
                      (told_apart (map (λ (p : PageLayout). p.id) pages) page.id k alone known))
                    refl)) in
    rw (here, rest) refl

pub selected :
    {A : Type 0} (p : A → Bool) (old new : List A)
    → filter p old ≡ []
    → all p new ≡ true
    → filter p (old ++ new) ≡ new
selected p old new h l = filter-append p old new ∙ rw (h, filter_of_all p new l) refl

module _ {Rest : Type 0} where
  -- A layout that is written for a step that has no rows yet is what the step shows when it is read
  -- again: the pages in their order with the slots of each in theirs, every slot with a priority,
  -- then the unused photos in their order. The pages are told apart by their ids.
  pub read_rows-step_media_rows :
      (tables : Tables Rest) (step : StepRow Rest) (pages : List PageLayout) (unused : List String)
      → filter (λ row. row.step_id == step.id) tables.pages ≡ []
      → filter (λ row. row.step_id == step.id) tables.slots ≡ []
      → filter (λ row. row.step_id == step.id) tables.unused ≡ []
      → ((k : String) → count (map (λ page. page.id) pages) k ≤ 1)
      → read_rows (step_media_rows tables step.id pages unused) step ≡ record {
        id = step.id;
        timestamp = step.timestamp;
        rest = step.rest;
        cover = step.cover_media_name;
        pages = filled_pages 0 pages;
        unused = unused;
      }
  unfolding read_rows step_to_read step_media_rows
  read_rows-step_media_rows tables step pages unused no_pages no_slots no_unused once =
      let page_part : pages_in_order
            (filter (λ row. row.step_id == step.id) (tables.pages ++ page_rows step.id 0 pages))
          ≡ page_rows step.id 0 pages =
        ap pages_in_order (
          selected (λ (row : StepPage). row.step_id == step.id) tables.pages
            (page_rows step.id 0 pages) no_pages (page_rows-step step.id 0 pages))
        ∙ sorted_of_IsSorted (λ (a b : StepPage). leb a.position_index b.position_index)
            (page_rows step.id 0 pages) (page_rows-IsSorted step.id 0 pages) in
      let slot_part =
        selected (λ (row : StepPageSlot). row.step_id == step.id) tables.slots
          (slot_rows step.id 0 pages) no_slots (slot_rows-step step.id 0 pages) in
      let unused_part =
        ap unused_in_order (
          selected (λ (row : StepUnusedMedia). row.step_id == step.id) tables.unused
            (unused_rows step.id 0 unused) no_unused (unused_rows-step step.id 0 unused))
        ∙ sorted_of_IsSorted (λ (a b : StepUnusedMedia). leb a.position_index b.position_index)
            (unused_rows step.id 0 unused) (unused_rows-IsSorted step.id 0 unused) in
      rw
        (
          page_part,
          slot_part,
          unused_part,
          map-page_of step.id 0 0 pages (slots_in_order (slot_rows step.id 0 pages)) once
              (λ k known. slots_by_page-in_order (slot_rows step.id 0 pages) k),
          names-unused step.id 0 unused,
        )
        refl
