-- ===== src/StepMedia/Replace/Shown.antt =====
-- What a step shows after its layout was replaced, and what the other steps show.
use wanderbound.Prelude.{
  ℕ, ◌+◌, ◌≤◌, ◌≡◌, refl, sym, ap, ◌∙◌, subst, arith, String, true, not, ◌==◌, string_eq, nat_eq,
  Option, some, List, [], ◌∷◌, ◌++◌, map, filter, filter_of_all, all, contains, count, is_empty,
  Bool-cases, inl, inr,
}
use wanderbound.Operations.Lifecycle.{some-injective}
use wanderbound.StepMedia.{
  PageLayout, StepPage, StepPageSlot, StepUnusedMedia, StepRow, Tables, find_step, read_rows,
  read_step_with_media, page_rows, slot_rows, unused_rows, step_media_rows,
}
use wanderbound.StepMedia.Rows.{page_rows-step, slot_rows-step, unused_rows-step}
use wanderbound.StepMedia.Saved.{read_rows-step_media_rows}
use wanderbound.StepMedia.Replace.{
  StepMediaLayout, layout_names, validate_media_names, next_priority, has_page, slot_ids,
  delete_slots, put_pages, put_slots, saved_pages, delete_pages, cascade_slots, set_cover,
  replaced_tables, replaced, replace_step_media_layout,
}
use wanderbound.StepMedia.Replace.Put.{
  filter-put_rows, filter-dropped, only_news, unknown_none, put_pages-rows, put_slots-rows,
}
use wanderbound.StepMedia.Replace.Kept.{
  kept_pages, saved_pages-kept, kept_pages-filled, page_rows-kept, ids-kept_pages, ids-saved_pages,
  slot_rows-pages,
}

ids-page_rows :
    (i n : ℕ) (pages : List PageLayout)
    → map (λ (r : StepPage). r.id) (page_rows i n pages) ≡ map (λ (p : PageLayout). p.id) pages
unfolding page_rows
ids-page_rows i n [] = refl
ids-page_rows i n (page ∷ pages) = ap (◌∷◌ page.id) (ids-page_rows i (n + 1) pages)

pages_left :
    (i : ℕ) (rows : List StepPage) (pages : List PageLayout)
    → ((k : String) → count (map (λ (p : PageLayout). p.id) pages) k ≤ 1)
    → filter
        (λ (r : StepPage). r.step_id == i)
        (delete_pages i pages (put_pages rows (page_rows i 0 pages)))
      ≡ page_rows i 0 pages
unfolding delete_pages has_page
pages_left i rows pages once =
    let step_of : StepPage → ℕ = λ r. r.step_id in
    let id_of : StepPage → String = λ r. r.id in
    let news = page_rows i 0 pages in
    let ids = ids-page_rows i 0 pages in
    let put : filter (λ (r : StepPage). r.step_id == i) (put_pages rows news)
        ≡ filter (λ (r : StepPage). not (contains (map id_of news) r.id))
            (filter (λ (r : StepPage). r.step_id == i) rows)
          ++ news =
      rw (put_pages-rows rows news) (
        filter-put_rows step_of id_of i rows news (page_rows-step i 0 pages)
          (λ k. subst (λ xs. count xs k ≤ 1) (sym ids) (once k))) in
    filter-dropped step_of id_of i (λ r. contains (map (λ (p : PageLayout). p.id) pages) r.id)
      (put_pages rows news)
    ∙ ap (filter (λ (r : StepPage). contains (map (λ (p : PageLayout). p.id) pages) r.id)) put
    ∙ only_news step_of id_of (map (λ (p : PageLayout). p.id) pages)
        (filter (λ (r : StepPage). r.step_id == i) rows) news ids

slots_left :
    (i : ℕ) (rows : List StepPageSlot) (pages : List PageLayout) (next : ℕ)
    → ((k : String) → count (slot_ids pages) k ≤ 1)
    → filter
        (λ (r : StepPageSlot). r.step_id == i)
        (cascade_slots i pages
          (put_slots (delete_slots i (slot_ids pages) rows) (saved_pages rows i pages next)))
      ≡ saved_pages rows i pages next
unfolding cascade_slots has_page delete_slots
slots_left i rows pages next once =
    let step_of : StepPageSlot → ℕ = λ r. r.step_id in
    let id_of : StepPageSlot → String = λ r. r.id in
    let news = saved_pages rows i pages next in
    let ids : map id_of news ≡ slot_ids pages = ids-saved_pages rows i pages next in
    let own : all (λ (r : StepPageSlot). r.step_id == i) news ≡ true =
      rw (saved_pages-kept rows i 0 pages next)
        (slot_rows-step i 0 (kept_pages rows i pages next)) in
    let on_pages : all
          (λ (r : StepPageSlot). contains (map (λ (p : PageLayout). p.id) pages) r.page_id) news
        ≡ true =
      rw (saved_pages-kept rows i 0 pages next) (
        slot_rows-pages i 0 (kept_pages rows i pages next) (map (λ (p : PageLayout). p.id) pages)
          (λ k h. rw (ids-kept_pages rows i pages next) at h)) in
    let deleted = delete_slots i (slot_ids pages) rows in
    let none_left : filter (λ (r : StepPageSlot). not (contains (map id_of news) r.id))
          (filter (λ (r : StepPageSlot). r.step_id == i) deleted)
        ≡ [] =
      ap (filter (λ (r : StepPageSlot). not (contains (map id_of news) r.id)))
        (filter-dropped step_of id_of i (λ r. contains (slot_ids pages) r.id) rows)
      ∙ subst
          (λ xs.
            filter (λ (r : StepPageSlot). not (contains (map id_of news) r.id))
              (filter (λ (r : StepPageSlot). contains xs r.id)
                (filter (λ (r : StepPageSlot). r.step_id == i) rows))
            ≡ [])
          ids
          (unknown_none step_of id_of news (filter (λ (r : StepPageSlot). r.step_id == i) rows)) in
    let put : filter (λ (r : StepPageSlot). r.step_id == i) (put_slots deleted news) ≡ news =
      rw (put_slots-rows deleted news) (
        filter-put_rows step_of id_of i deleted news own
          (λ k. subst (λ xs. count xs k ≤ 1) (sym ids) (once k))
        ∙ ap (λ xs. xs ++ news) none_left) in
    filter-dropped step_of id_of i (λ r. contains (map (λ (p : PageLayout). p.id) pages) r.page_id)
      (put_slots deleted news)
    ∙ ap (filter (λ (r : StepPageSlot). contains (map (λ (p : PageLayout). p.id) pages) r.page_id))
        put
    ∙ filter_of_all
        (λ (r : StepPageSlot). contains (map (λ (p : PageLayout). p.id) pages) r.page_id) news
        on_pages

unused_left :
    (i : ℕ) (rows news : List StepUnusedMedia)
    → all (λ (r : StepUnusedMedia). r.step_id == i) news ≡ true
    → filter
        (λ (r : StepUnusedMedia). r.step_id == i)
        (filter (λ (r : StepUnusedMedia). not (r.step_id == i)) rows ++ news)
      ≡ news
unused_left i [] news h = filter_of_all (λ (r : StepUnusedMedia). r.step_id == i) news h
unused_left i (row ∷ rows) news h = ground (arith, unused_left i rows news h)

module _ {Rest : Type 0} where
  pub read_rows_same :
      (t u : Tables Rest) (step : StepRow Rest)
      → filter (λ (r : StepPage). r.step_id == step.id) t.pages
        ≡ filter (λ (r : StepPage). r.step_id == step.id) u.pages
      → filter (λ (r : StepPageSlot). r.step_id == step.id) t.slots
        ≡ filter (λ (r : StepPageSlot). r.step_id == step.id) u.slots
      → filter (λ (r : StepUnusedMedia). r.step_id == step.id) t.unused
        ≡ filter (λ (r : StepUnusedMedia). r.step_id == step.id) u.unused
      → read_rows t step ≡ read_rows u step
  unfolding read_rows
  read_rows_same t u step p s n = rw (p, s, n) refl

  find_step-set_cover :
      (i : ℕ) (cover : Option String) (steps : List (StepRow Rest)) (step : StepRow Rest)
      → find_step steps i ≡ some step
      → find_step (map (set_cover i cover) steps) i
        ≡ some (record step { cover_media_name = cover })
  unfolding find_step set_cover
  find_step-set_cover i cover [] step h = absurd (ground (arith, h))
  find_step-set_cover i cover (first ∷ steps) step h = elim (Bool-cases (first.id == i)) [
    | inl own ↦
        let same : first ≡ step = some-injective (rw (find_step, own) at h) in
        let covered : StepRow Rest → Option (StepRow Rest) =
          λ s. some (record s { cover_media_name = cover }) in
        rw (set_cover, own, find_step, own) (ap covered same)
    | inr other ↦
        rw (set_cover, other, find_step, other)
          (find_step-set_cover i cover steps step (rw (find_step, other) at h))
  ]

  -- the layout, where a stored slot keeps its priority and a new one gets one
  abbrev pub shown_pages : Tables Rest → ℕ → StepMediaLayout → List PageLayout
  shown_pages tables i layout =
      kept_pages tables.slots i layout.pages (next_priority tables.slots i)

  shown :
      (tables : Tables Rest) (step : StepRow Rest) (layout : StepMediaLayout)
      → ((k : String) → count (map (λ (p : PageLayout). p.id) layout.pages) k ≤ 1)
      → ((k : String) → count (slot_ids layout.pages) k ≤ 1)
      → read_rows
          (replaced_tables tables step.id layout)
          (record step { cover_media_name = layout.cover })
        ≡ record {
          id = step.id;
          timestamp = step.timestamp;
          rest = step.rest;
          cover = layout.cover;
          pages = shown_pages tables step.id layout;
          unused = layout.unused;
        }
  unfolding replaced_tables step_media_rows
  shown tables step layout pages_once slots_once =
      let i = step.id in
      let next = next_priority tables.slots i in
      let kept = kept_pages tables.slots i layout.pages next in
      let fresh : Tables Rest = record { steps = []; pages = []; slots = []; unused = [] } in
      let own : StepRow Rest = record step { cover_media_name = layout.cover } in
      read_rows_same (replaced_tables tables i layout) (step_media_rows fresh i kept layout.unused)
        own
        (pages_left i tables.pages layout.pages pages_once
          ∙ sym (page_rows-kept tables.slots i 0 layout.pages next)
          ∙ sym (
              filter_of_all (λ (r : StepPage). r.step_id == i) (page_rows i 0 kept)
                (page_rows-step i 0 kept)))
        (slots_left i tables.slots layout.pages next slots_once
          ∙ saved_pages-kept tables.slots i 0 layout.pages next
          ∙ sym (
              filter_of_all (λ (r : StepPageSlot). r.step_id == i) (slot_rows i 0 kept)
                (slot_rows-step i 0 kept)))
        (unused_left i tables.unused (unused_rows i 0 layout.unused)
            (unused_rows-step i 0 layout.unused)
          ∙ sym (
              filter_of_all (λ (r : StepUnusedMedia). r.step_id == i)
                (unused_rows i 0 layout.unused) (unused_rows-step i 0 layout.unused)))
      ∙ read_rows-step_media_rows fresh own kept layout.unused refl refl refl (λ k.
        subst (λ ids. count ids k ≤ 1) (sym (ids-kept_pages tables.slots i layout.pages next))
          (pages_once k))
      ∙ rw (kept_pages-filled tables.slots i 0 layout.pages next) refl

  read-shown :
      (tables : Tables Rest) (step : StepRow Rest) (layout : StepMediaLayout)
      → find_step tables.steps step.id ≡ some step
      → ((k : String) → count (map (λ (p : PageLayout). p.id) layout.pages) k ≤ 1)
      → ((k : String) → count (slot_ids layout.pages) k ≤ 1)
      → read_step_with_media (replaced_tables tables step.id layout) step.id
        ≡ some (record {
          id = step.id;
          timestamp = step.timestamp;
          rest = step.rest;
          cover = layout.cover;
          pages = shown_pages tables step.id layout;
          unused = layout.unused;
        })
  unfolding read_step_with_media replaced_tables
  read-shown tables step layout known pages_once slots_once =
      let own : StepRow Rest = record step { cover_media_name = layout.cover } in
      let found : find_step (replaced_tables tables step.id layout).steps step.id ≡ some own =
        find_step-set_cover step.id layout.cover tables.steps step known in
      rw (read_step_with_media, found) (ap some (shown tables step layout pages_once slots_once))

  -- A step whose layout was replaced shows that layout, with its cover and its unused photos, where
  -- the album has the media and the ids of the layout's pages and of its slots differ. A slot that
  -- was stored keeps its priority, and a new one gets the next.
  pub replace_step_media_layout-shown :
      (media : List String) (tables : Tables Rest) (step : StepRow Rest) (layout : StepMediaLayout)
      → find_step tables.steps step.id ≡ some step
      → is_empty (validate_media_names media (layout_names layout)) ≡ true
      → ((k : String) → count (map (λ (p : PageLayout). p.id) layout.pages) k ≤ 1)
      → ((k : String) → count (slot_ids layout.pages) k ≤ 1)
      → replace_step_media_layout media tables step.id layout
        ≡ replaced (replaced_tables tables step.id layout) (
            some (record {
              id = step.id;
              timestamp = step.timestamp;
              rest = step.rest;
              cover = layout.cover;
              pages = shown_pages tables step.id layout;
              unused = layout.unused;
            }))
  unfolding replace_step_media_layout
  replace_step_media_layout-shown media tables step layout known valid pages_once slots_once =
      rw (replace_step_media_layout, known, valid)
        (ap (replaced (replaced_tables tables step.id layout))
          (read-shown tables step layout known pages_once slots_once))
