-- ===== src/StepMedia/Replace/Others.antt =====
-- A replaced layout changes nothing of what the other steps show.
use wanderbound.Prelude.{
  ℕ, ◌≡◌, refl, sym, ap, ◌∙◌, arith, Option, some, Option-cases, Bool-cases, inl, inr, String, true,
  false, not, ◌==◌, nat_eq, string_eq, List, [], ◌∷◌, ◌++◌, map, filter, all, contains,
}
use wanderbound.StepMedia.{
  find_step, read_step_with_media, PageLayout, StepPage, StepPageSlot, StepUnusedMedia, StepRow,
  Tables, read_rows, page_rows, unused_rows,
}
use wanderbound.StepMedia.Rows.{page_rows-step, slot_rows-step, unused_rows-step}
use wanderbound.StepMedia.Replace.{
  StepMediaLayout, next_priority, has_page, slot_ids, delete_slots, put_pages, put_slots,
  saved_pages, delete_pages, cascade_slots, replaced_tables, set_cover,
}
use wanderbound.Operations.Lifecycle.{some-injective}
use wanderbound.StepMedia.Replace.Put.{
  filter-other_rows, filter-other_dropped, put_pages-rows, put_slots-rows,
}
use wanderbound.StepMedia.Replace.Kept.{kept_pages, saved_pages-kept}
use wanderbound.StepMedia.Replace.Shown.{read_rows_same}

all-other :
    {Row : Type 0} (step_of : Row → ℕ) (i other : ℕ) (rows : List Row)
    → (other == i) ≡ false
    → all (λ row. step_of row == i) rows ≡ true
    → all (λ row. not (step_of row == other)) rows ≡ true
all-other step_of i other [] h k = refl
all-other step_of i other (row ∷ rows) h k = ground (arith, h, k, all-other step_of i other rows h)

other_unused :
    (i other : ℕ) (rows news : List StepUnusedMedia)
    → (other == i) ≡ false
    → all (λ (r : StepUnusedMedia). not (r.step_id == other)) news ≡ true
    → filter
        (λ (r : StepUnusedMedia). r.step_id == other)
        (filter (λ (r : StepUnusedMedia). not (r.step_id == i)) rows ++ news)
      ≡ filter (λ (r : StepUnusedMedia). r.step_id == other) rows
other_unused i other [] [] h k = refl
other_unused i other [] (new ∷ news) h k = ground (arith, k, other_unused i other [] news h)
other_unused i other (row ∷ rows) news h k = ground (arith, h, k, other_unused i other rows news h)

other_pages :
    (i other : ℕ) (rows : List StepPage) (pages : List PageLayout)
    → (other == i) ≡ false
    → filter
        (λ (r : StepPage). r.step_id == other)
        (delete_pages i pages (put_pages rows (page_rows i 0 pages)))
      ≡ filter (λ (r : StepPage). r.step_id == other) rows
unfolding delete_pages has_page
other_pages i other rows pages h =
    let step_of : StepPage → ℕ = λ r. r.step_id in
    let id_of : StepPage → String = λ r. r.id in
    let news = page_rows i 0 pages in
    filter-other_dropped step_of id_of i other
      (λ r. contains (map (λ (p : PageLayout). p.id) pages) r.id) (put_pages rows news) h
    ∙ rw (put_pages-rows rows news) (
        filter-other_rows step_of id_of other rows news
          (all-other step_of i other news h (page_rows-step i 0 pages)))

other_slots :
    (i other : ℕ) (rows : List StepPageSlot) (pages : List PageLayout) (next : ℕ)
    → (other == i) ≡ false
    → filter
        (λ (r : StepPageSlot). r.step_id == other)
        (cascade_slots i pages
          (put_slots (delete_slots i (slot_ids pages) rows) (saved_pages rows i pages next)))
      ≡ filter (λ (r : StepPageSlot). r.step_id == other) rows
unfolding cascade_slots has_page delete_slots
other_slots i other rows pages next h =
    let step_of : StepPageSlot → ℕ = λ r. r.step_id in
    let id_of : StepPageSlot → String = λ r. r.id in
    let news = saved_pages rows i pages next in
    let deleted = delete_slots i (slot_ids pages) rows in
    let own : all (λ (r : StepPageSlot). r.step_id == i) news ≡ true =
      rw (saved_pages-kept rows i 0 pages next)
        (slot_rows-step i 0 (kept_pages rows i pages next)) in
    filter-other_dropped step_of id_of i other
      (λ r. contains (map (λ (p : PageLayout). p.id) pages) r.page_id) (put_slots deleted news) h
    ∙ rw (put_slots-rows deleted news) (
        filter-other_rows step_of id_of other deleted news (all-other step_of i other news h own)
        ∙ filter-other_dropped step_of id_of i other (λ r. contains (slot_ids pages) r.id) rows h)

module _ {Rest : Type 0} where
  read_rows-other :
      (tables : Tables Rest) (i : ℕ) (layout : StepMediaLayout) (step : StepRow Rest)
      → (step.id == i) ≡ false
      → read_rows (replaced_tables tables i layout) step ≡ read_rows tables step
  unfolding replaced_tables
  read_rows-other tables i layout step h =
      read_rows_same (replaced_tables tables i layout) tables step
        (other_pages i step.id tables.pages layout.pages h)
        (other_slots i step.id tables.slots layout.pages (next_priority tables.slots i) h)
        (other_unused i step.id tables.unused (unused_rows i 0 layout.unused) h (
          all-other (λ (r : StepUnusedMedia). r.step_id) i step.id (unused_rows i 0 layout.unused) h
            (unused_rows-step i 0 layout.unused)))

  -- The row found for another step is the one found before, and it has that step's id.
  find_step-set_cover :
      (steps : List (StepRow Rest)) (i other : ℕ) (cover : Option String)
      → (other == i) ≡ false
      → find_step (map (set_cover i cover) steps) other ≡ find_step steps other
  unfolding find_step set_cover
  find_step-set_cover [] i other cover h = refl
  find_step-set_cover (step ∷ steps) i other cover h =
      ground (arith, h, find_step-set_cover steps i other cover h)

  find_step-id :
      (steps : List (StepRow Rest)) (other : ℕ) (step : StepRow Rest)
      → find_step steps other ≡ some step
      → step.id ≡ other
  unfolding find_step
  find_step-id [] other step h = absurd (ground (arith, h))
  find_step-id (row ∷ steps) other step h = elim (Bool-cases (row.id == other)) [
    | inl same ↦
        let found : row ≡ step = some-injective (ground (arith, same, h)) in
        ap (λ (r : StepRow Rest). r.id) (sym found) ∙ (nat_eq.same_iff row.id other).0 same
    | inr apart ↦ find_step-id steps other step (ground (arith, apart, h))
  ]

  -- After the layout of a step is replaced, reading any other step, stored or not, gives what it
  -- gave before: its cover, its pages with their slots, and its unused media.
  pub read_step_with_media-replaced_tables :
      (tables : Tables Rest) (i other : ℕ) (layout : StepMediaLayout)
      → (other == i) ≡ false
      → read_step_with_media (replaced_tables tables i layout) other
        ≡ read_step_with_media tables other
  unfolding read_step_with_media replaced_tables
  read_step_with_media-replaced_tables tables i other layout h =
      let same : find_step (map (set_cover i layout.cover) tables.steps) other
          ≡ find_step tables.steps other =
        find_step-set_cover tables.steps i other layout.cover h in
      elim (Option-cases (find_step tables.steps other)) [
        | inl e ↦ rw (read_step_with_media, same, e) refl
        | inr (step, e) ↦
            rw (read_step_with_media, same, e)
              (ap some (
                read_rows-other tables i layout step
                  (ap (λ k. k == i) (find_step-id tables.steps other step e) ∙ h)))
      ]
