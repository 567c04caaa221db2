-- ===== src/StepMedia/Rows.antt =====
-- The rows that a layout is written as: their steps and pages, and their order.
use wanderbound.Prelude.{
  eq_comm, ℕ, ◌+◌, ◌≤◌, ◌≡◌, refl, ◌∙◌, ap, arith, String, true, false, ◌==◌, string_eq, nat_eq,
  eq_refl, some, List, [], ◌∷◌, map, filter, filter-append, all, all-append, leb, length, All,
  contains,
}
use wanderbound.Prelude.Sorting.{IsSorted}
use wanderbound.StepMedia.{
  SlotLayout, PageLayout, StepPageSlot, slot_of, page_rows, priority_or, page_slot_rows, slot_rows,
  unused_rows,
}

-- a layout whose slots all have a priority: their own, or their number among all slots
abbrev pub filled_slots : ℕ → ℕ → List SlotLayout → List SlotLayout
filled_slots before index [] = []
filled_slots before index (slot ∷ slots) =
    record slot {
      continuation_priority = some (priority_or slot.continuation_priority (before + index));
    }
    ∷ filled_slots before (index + 1) slots

abbrev pub filled_pages : ℕ → List PageLayout → List PageLayout
filled_pages before [] = []
filled_pages before (page ∷ pages) =
    record page { slots = filled_slots before 0 page.slots }
    ∷ filled_pages (before + length page.slots) pages

pub page_rows-step :
    (i n : ℕ) (pages : List PageLayout) → all (λ row. row.step_id == i) (page_rows i n pages) ≡ true
unfolding page_rows
page_rows-step i n [] = refl
page_rows-step i n (page ∷ pages) = ground (arith, page_rows-step i (n + 1) pages)

pub unused_rows-step :
    (i n : ℕ) (names : List String) → all (λ row. row.step_id == i) (unused_rows i n names) ≡ true
unfolding unused_rows
unused_rows-step i n [] = refl
unused_rows-step i n (name ∷ names) = ground (arith, unused_rows-step i (n + 1) names)

pub page_slot_rows-keys :
    (i before n : ℕ) (k : String) (slots : List SlotLayout)
    → (all (λ row. row.step_id == i) (page_slot_rows i k before n slots) ≡ true)
      × (all (λ row. row.page_id == k) (page_slot_rows i k before n slots) ≡ true)
unfolding page_slot_rows
page_slot_rows-keys i before n k [] = (refl, refl)
page_slot_rows-keys i before n k (slot ∷ slots) =
    let (steps, pages) = page_slot_rows-keys i before (n + 1) k slots in
    (ground arith, ground (arith, eq_refl k))

pub slot_rows-step :
    (i before : ℕ) (pages : List PageLayout)
    → all (λ row. row.step_id == i) (slot_rows i before pages) ≡ true
unfolding slot_rows
slot_rows-step i before [] = refl
slot_rows-step i before (page ∷ pages) = ground (
  arith,
  all-append (λ (row : StepPageSlot). row.step_id == i)
      (page_slot_rows i page.id before 0 page.slots)
      (slot_rows i (before + length page.slots) pages),
  page_slot_rows-keys i before 0 page.id page.slots,
  slot_rows-step i (before + length page.slots) pages,
)

page_rows-later :
    (i n m : ℕ) (pages : List PageLayout)
    → m ≤ n
    → All (λ row. leb m row.position_index ≡ true) (page_rows i n pages)
unfolding page_rows
page_rows-later i n m [] h = tt
page_rows-later i n m (page ∷ pages) h =
    (ground arith, page_rows-later i (n + 1) m pages (omega arith))

pub page_rows-IsSorted :
    (i n : ℕ) (pages : List PageLayout)
    → IsSorted (λ a b. leb a.position_index b.position_index) (page_rows i n pages)
unfolding page_rows
page_rows-IsSorted i n [] = tt
page_rows-IsSorted i n (page ∷ pages) =
    (page_rows-later i (n + 1) n pages (omega arith), page_rows-IsSorted i (n + 1) pages)

unused_rows-later :
    (i n m : ℕ) (names : List String)
    → m ≤ n
    → All (λ row. leb m row.position_index ≡ true) (unused_rows i n names)
unfolding unused_rows
unused_rows-later i n m [] h = tt
unused_rows-later i n m (name ∷ names) h =
    (ground arith, unused_rows-later i (n + 1) m names (omega arith))

pub unused_rows-IsSorted :
    (i n : ℕ) (names : List String)
    → IsSorted (λ a b. leb a.position_index b.position_index) (unused_rows i n names)
unfolding unused_rows
unused_rows-IsSorted i n [] = tt
unused_rows-IsSorted i n (name ∷ names) =
    (unused_rows-later i (n + 1) n names (omega arith), unused_rows-IsSorted i (n + 1) names)

slots-later :
    (i before n m : ℕ) (k : String) (slots : List SlotLayout)
    → m ≤ n
    → All (λ row. leb m row.position_index ≡ true) (page_slot_rows i k before n slots)
unfolding page_slot_rows
slots-later i before n m k [] h = tt
slots-later i before n m k (slot ∷ slots) h =
    (ground arith, slots-later i before (n + 1) m k slots (omega arith))

pub slots-IsSorted :
    (i before n : ℕ) (k : String) (slots : List SlotLayout)
    → IsSorted (λ a b. leb a.position_index b.position_index) (page_slot_rows i k before n slots)
unfolding page_slot_rows
slots-IsSorted i before n k [] = tt
slots-IsSorted i before n k (slot ∷ slots) =
    (slots-later i before (n + 1) n k slots (omega arith), slots-IsSorted i before (n + 1) k slots)

pub slot_of-rows :
    (i before n : ℕ) (k : String) (slots : List SlotLayout)
    → map slot_of (page_slot_rows i k before n slots) ≡ filled_slots before n slots
unfolding slot_of page_slot_rows
slot_of-rows i before n k [] = refl
slot_of-rows i before n k (slot ∷ slots) = rw (slot_of-rows i before (n + 1) k slots) refl

pub names-unused :
    (i n : ℕ) (names : List String) → map (λ row. row.media_name) (unused_rows i n names) ≡ names
unfolding unused_rows
names-unused i n [] = refl
names-unused i n (name ∷ names) = ap (◌∷◌ name) (names-unused i (n + 1) names)

-- rows of other pages are not selected
pub filter-other_page :
    (i before n : ℕ) (k other : String) (slots : List SlotLayout)
    → (other == k) ≡ false
    → filter (λ row. row.page_id == k) (page_slot_rows i other before n slots) ≡ []
unfolding page_slot_rows
filter-other_page i before n k other [] h = refl
filter-other_page i before n k other (slot ∷ slots) h =
    rw h (filter-other_page i before (n + 1) k other slots h)

pub filter-unknown_page :
    (i before : ℕ) (k : String) (pages : List PageLayout)
    → contains (map (λ page. page.id) pages) k ≡ false
    → filter (λ row. row.page_id == k) (slot_rows i before pages) ≡ []
unfolding slot_rows
filter-unknown_page i before k [] h = refl
filter-unknown_page i before k (page ∷ pages) h =
    filter-append (λ (row : StepPageSlot). row.page_id == k)
      (page_slot_rows i page.id before 0 page.slots) _
    ∙ rw
        (
          filter-other_page i before 0 k page.id page.slots (eq_comm page.id k ∙ ground arith),
          filter-unknown_page i (before + length page.slots) k pages (ground arith),
        )
        refl
