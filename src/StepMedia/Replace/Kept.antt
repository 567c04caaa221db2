-- ===== src/StepMedia/Replace/Kept.antt =====
-- The slots of a layout with the priorities that they are saved with.
use wanderbound.Prelude.{
  ℕ, suc, ◌+◌, ◌≡◌, refl, ap, ◌∙◌, arith, String, true, eq_refl, string_eq, nat_eq, none, some,
  List, [], ◌∷◌, ◌++◌, map, map-append, all, all-append, contains, length, Option-cases, inl, inr,
}
use wanderbound.StepMedia.{
  SlotLayout, PageLayout, StepPageSlot, page_rows, priority_or, page_slot_rows, slot_rows,
}
use wanderbound.StepMedia.Rows.{filled_slots, filled_pages}
use wanderbound.StepMedia.Replace.{find_slot, slot_row, saved_slots, saved_pages, slot_ids}

module _ (existing : List StepPageSlot) (step_id : ℕ) where
  -- the slots with their priorities, and the next priority
  abbrev pub kept_slots : List SlotLayout → ℕ → List SlotLayout × ℕ
  kept_slots [] next = ([], next)
  kept_slots (slot ∷ slots) next =
      let old = kept_slots slots next in
      let new = kept_slots slots (suc next) in
      elim (find_slot existing step_id slot.id) [
        | none ↦ (record slot { continuation_priority = some next } ∷ new.0, new.1)
        | some row ↦
            (record slot { continuation_priority = some row.continuation_priority } ∷ old.0, old.1)
      ]

  abbrev pub kept_pages : List PageLayout → ℕ → List PageLayout
  kept_pages [] next = []
  kept_pages (page ∷ pages) next =
      let first = kept_slots page.slots next in
      record page { slots = first.0 } ∷ kept_pages pages first.1

  saved_slots-kept :
      (page_id : String) (before index : ℕ) (slots : List SlotLayout) (next : ℕ)
      → ((saved_slots existing step_id page_id index slots next).0
          ≡ page_slot_rows step_id page_id before index (kept_slots slots next).0)
        × ((saved_slots existing step_id page_id index slots next).1 ≡ (kept_slots slots next).1)
  unfolding saved_slots page_slot_rows slot_row priority_or
  saved_slots-kept page_id before index [] next = (refl, refl)
  saved_slots-kept page_id before index (slot ∷ slots) next =
      elim (Option-cases (find_slot existing step_id slot.id)) [
        | inl e ↦
            let ih = saved_slots-kept page_id before (index + 1) slots (suc next) in
            (
              rw (saved_slots, kept_slots, e)
                  (ap (◌∷◌ (slot_row step_id page_id index slot next)) ih.0),
              rw (saved_slots, kept_slots, e) ih.1,
            )
        | inr (row, e) ↦
            let ih = saved_slots-kept page_id before (index + 1) slots next in
            (
              rw (saved_slots, kept_slots, e)
                  (ap (◌∷◌ (slot_row step_id page_id index slot row.continuation_priority)) ih.0),
              rw (saved_slots, kept_slots, e) ih.1,
            )
      ]

  pub saved_pages-kept :
      (before : ℕ) (pages : List PageLayout) (next : ℕ)
      → saved_pages existing step_id pages next ≡ slot_rows step_id before (kept_pages pages next)
  unfolding saved_pages slot_rows
  saved_pages-kept before [] next = refl
  saved_pages-kept before (page ∷ pages) next =
      let first = kept_slots page.slots next in
      let (rows, after) = saved_slots-kept page.id before 0 page.slots next in
      rw (saved_pages, rows, after)
        (ap (λ rest. page_slot_rows step_id page.id before 0 first.0 ++ rest)
          (saved_pages-kept (before + length first.0) pages first.1))

  kept_slots-filled :
      (before index : ℕ) (slots : List SlotLayout) (next : ℕ)
      → filled_slots before index (kept_slots slots next).0 ≡ (kept_slots slots next).0
  unfolding priority_or
  kept_slots-filled before index [] next = refl
  kept_slots-filled before index (slot ∷ slots) next =
      elim (Option-cases (find_slot existing step_id slot.id)) [
        | inl e ↦
            rw (kept_slots, e)
              (ap (◌∷◌ (record slot { continuation_priority = some next }))
                (kept_slots-filled before (index + 1) slots (suc next)))
        | inr (row, e) ↦
            rw (kept_slots, e)
              (ap (◌∷◌ (record slot { continuation_priority = some row.continuation_priority }))
                (kept_slots-filled before (index + 1) slots next))
      ]

  pub kept_pages-filled :
      (before : ℕ) (pages : List PageLayout) (next : ℕ)
      → filled_pages before (kept_pages pages next) ≡ kept_pages pages next
  kept_pages-filled before [] next = refl
  kept_pages-filled before (page ∷ pages) next =
      rw
        (
          kept_slots-filled before 0 page.slots next,
          kept_pages-filled (before + length (kept_slots page.slots next).0) pages
              (kept_slots page.slots next).1,
        )
        refl

  pub page_rows-kept :
      (index : ℕ) (pages : List PageLayout) (next : ℕ)
      → page_rows step_id index (kept_pages pages next) ≡ page_rows step_id index pages
  unfolding page_rows
  page_rows-kept index [] next = refl
  page_rows-kept index (page ∷ pages) next =
      ap
        (◌∷◌ (record {
          step_id = step_id;
          id = page.id;
          position_index = index;
          page_kind = page.kind;
        }))
        (page_rows-kept (index + 1) pages (kept_slots page.slots next).1)

  pub ids-kept_pages :
      (pages : List PageLayout) (next : ℕ)
      → map (λ (p : PageLayout). p.id) (kept_pages pages next)
        ≡ map (λ (p : PageLayout). p.id) pages
  ids-kept_pages [] next = refl
  ids-kept_pages (page ∷ pages) next =
      ap (◌∷◌ page.id) (ids-kept_pages pages (kept_slots page.slots next).1)

  ids-saved_slots :
      (page_id : String) (index : ℕ) (slots : List SlotLayout) (next : ℕ)
      → map (λ (r : StepPageSlot). r.id) (saved_slots existing step_id page_id index slots next).0
        ≡ map (λ (s : SlotLayout). s.id) slots
  unfolding saved_slots slot_row
  ids-saved_slots page_id index [] next = refl
  ids-saved_slots page_id index (slot ∷ slots) next =
      elim (Option-cases (find_slot existing step_id slot.id)) [
        | inl e ↦
            rw (saved_slots, e)
              (ap (◌∷◌ slot.id) (ids-saved_slots page_id (index + 1) slots (suc next)))
        | inr (row, e) ↦
            rw (saved_slots, e) (ap (◌∷◌ slot.id) (ids-saved_slots page_id (index + 1) slots next))
      ]

  pub ids-saved_pages :
      (pages : List PageLayout) (next : ℕ)
      → map (λ (r : StepPageSlot). r.id) (saved_pages existing step_id pages next) ≡ slot_ids pages
  unfolding saved_pages slot_ids
  ids-saved_pages [] next = refl
  ids-saved_pages (page ∷ pages) next =
      let first = saved_slots existing step_id page.id 0 page.slots next in
      map-append {0} (λ (r : StepPageSlot). r.id) first.0
        (saved_pages existing step_id pages first.1)
      ∙ rw (ids-saved_slots page.id 0 page.slots next, ids-saved_pages pages first.1) refl

page_slot_rows-pages :
    (step_id : ℕ) (page_id : String) (before index : ℕ) (slots : List SlotLayout)
    (ids : List String)
    → contains ids page_id ≡ true
    → all
        (λ (r : StepPageSlot). contains ids r.page_id)
        (page_slot_rows step_id page_id before index slots)
      ≡ true
unfolding page_slot_rows
page_slot_rows-pages step_id page_id before index [] ids h = refl
page_slot_rows-pages step_id page_id before index (slot ∷ slots) ids h =
    ground (arith, h, page_slot_rows-pages step_id page_id before (index + 1) slots ids h)

pub slot_rows-pages :
    (step_id before : ℕ) (pages : List PageLayout) (ids : List String)
    → ((k : String)
        → contains (map (λ (p : PageLayout). p.id) pages) k ≡ true
        → contains ids k ≡ true)
    → all (λ (r : StepPageSlot). contains ids r.page_id) (slot_rows step_id before pages) ≡ true
unfolding slot_rows
slot_rows-pages step_id before [] ids h = refl
slot_rows-pages step_id before (page ∷ pages) ids h = ground (
  arith,
  all-append (λ (r : StepPageSlot). contains ids r.page_id)
      (page_slot_rows step_id page.id before 0 page.slots)
      (slot_rows step_id (before + length page.slots) pages),
  page_slot_rows-pages step_id page.id before 0 page.slots ids
      (h page.id (ground (arith, eq_refl page.id))),
  slot_rows-pages step_id (before + length page.slots) pages ids (λ k e. h k (ground (arith, e))),
)
