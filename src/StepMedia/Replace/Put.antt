-- ===== src/StepMedia/Replace/Put.antt =====
-- The rows of a step after its pages and slots were put.
use wanderbound.Prelude.{
  ℕ, ◌≤◌, ◌≡◌, refl, sym, ap, ◌∙◌, arith, String, Bool, true, false, not, ◌&&◌, ◌==◌, eq_refl,
  string_eq, nat_eq, List, [], ◌∷◌, ◌++◌, map, filter, filter-append, filter_of_all, append_nil,
  all, count, contains, count_pos,
}
use mathlib.Core.List.{append_assoc}
use wanderbound.StepMedia.{StepPage, StepPageSlot}
use wanderbound.StepMedia.Replace.{put_page, put_pages, put_slot, put_slots}

-- rows of a table that have a step and an id
module _ {Row : Type 0} (step_of : Row → ℕ) (id_of : Row → String) where
  abbrev pub is_of : ℕ → Row → Bool
  is_of step_id row = step_of row == step_id

  abbrev pub put_row : List Row → Row → List Row
  put_row rows new =
      filter (λ row. not (step_of row == step_of new && id_of row == id_of new)) rows ++ new ∷ []

  abbrev pub put_rows : List Row → List Row → List Row
  put_rows rows [] = rows
  put_rows rows (new ∷ news) = put_rows (put_row rows new) news

  abbrev pub is_unknown : List Row → Row → Bool
  is_unknown news row = not (contains (map id_of news) (id_of row))

  filter-row :
      (step_id : ℕ) (rows : List Row) (new : Row)
      → step_of new ≡ step_id
      → filter
          (is_of step_id)
          (filter (λ row. not (step_of row == step_of new && id_of row == id_of new)) rows)
        ≡ filter (λ row. not (id_of row == id_of new)) (filter (is_of step_id) rows)
  filter-row step_id [] new h = refl
  filter-row step_id (row ∷ rows) new h = ground (arith, h, filter-row step_id rows new h)

  filter-other_row :
      (step_id : ℕ) (rows : List Row) (new : Row)
      → (step_of new == step_id) ≡ false
      → filter (is_of step_id) (put_row rows new) ≡ filter (is_of step_id) rows
  filter-other_row step_id [] new h = rw h refl
  filter-other_row step_id (row ∷ rows) new h =
      ground (arith, h, filter-other_row step_id rows new h)

  pub filter-other_rows :
      (step_id : ℕ) (rows news : List Row)
      → all (λ new. not (is_of step_id new)) news ≡ true
      → filter (is_of step_id) (put_rows rows news) ≡ filter (is_of step_id) rows
  filter-other_rows step_id rows [] h = refl
  filter-other_rows step_id rows (new ∷ news) h =
      filter-other_rows step_id (put_row rows new) news (ground (arith, h))
      ∙ filter-other_row step_id rows new (ground (arith, h))

  filter-unknown :
      (rows : List Row) (new : Row) (news : List Row)
      → filter (is_unknown news) (filter (λ row. not (id_of row == id_of new)) rows)
        ≡ filter (is_unknown (new ∷ news)) rows
  filter-unknown [] new news = refl
  filter-unknown (row ∷ rows) new news = ground (arith, filter-unknown rows new news)

  unknown_all : (rows : List Row) → all (is_unknown []) rows ≡ true
  unknown_all [] = refl
  unknown_all (row ∷ rows) = unknown_all rows

  -- The rows of the step are those whose ids were not put, and those that were.
  pub filter-put_rows :
      (step_id : ℕ) (rows news : List Row)
      → all (is_of step_id) news ≡ true
      → ((k : String) → count (map id_of news) k ≤ 1)
      → filter (is_of step_id) (put_rows rows news)
        ≡ filter (is_unknown news) (filter (is_of step_id) rows) ++ news
  filter-put_rows step_id rows [] h once = sym (
      append_nil (filter (is_unknown []) (filter (is_of step_id) rows))
      ∙ filter_of_all (is_unknown []) (filter (is_of step_id) rows)
          (unknown_all (filter (is_of step_id) rows)))
  filter-put_rows step_id rows (new ∷ news) h once =
      let kept = filter (λ row. not (step_of row == step_of new && id_of row == id_of new)) rows in
      let own : is_of step_id new ≡ true = ground (arith, h) in
      let alone : is_unknown news new ≡ true =
        ground
          (arith, once (id_of new), eq_refl (id_of new), count_pos (map id_of news) (id_of new)) in
      let step_part : filter (is_of step_id) (put_row rows new)
          ≡ filter (λ row. not (id_of row == id_of new)) (filter (is_of step_id) rows) ++ new ∷ [] =
        filter-append (is_of step_id) kept (new ∷ [])
        ∙ rw (own, filter-row step_id rows new (ground (arith, h))) refl in
      filter-put_rows step_id (put_row rows new) news (ground (arith, h))
        (λ k. ground (arith, once k))
      ∙ ap (λ xs. filter (is_unknown news) xs ++ news) step_part
      ∙ ap (λ xs. xs ++ news)
          (filter-append (is_unknown news)
              (filter (λ row. not (id_of row == id_of new)) (filter (is_of step_id) rows))
              (new ∷ [])
            ∙ rw (alone, filter-unknown (filter (is_of step_id) rows) new news) refl)
      ∙ append_assoc (filter (is_unknown (new ∷ news)) (filter (is_of step_id) rows)) (new ∷ [])
          news

  pub filter-dropped :
      (step_id : ℕ) (p : Row → Bool) (rows : List Row)
      → filter (is_of step_id) (filter (λ row. not (is_of step_id row && not (p row))) rows)
        ≡ filter p (filter (is_of step_id) rows)
  filter-dropped step_id p [] = refl
  filter-dropped step_id p (row ∷ rows) = ground (arith, filter-dropped step_id p rows)

  pub filter-other_dropped :
      (step_id other : ℕ) (p : Row → Bool) (rows : List Row)
      → (other == step_id) ≡ false
      → filter (is_of other) (filter (λ row. not (is_of step_id row && not (p row))) rows)
        ≡ filter (is_of other) rows
  filter-other_dropped step_id other p [] h = refl
  filter-other_dropped step_id other p (row ∷ rows) h =
      ground (arith, h, filter-other_dropped step_id other p rows h)

  pub none_unknown :
      (news : List Row) (rows : List Row)
      → filter (λ row. contains (map id_of news) (id_of row)) (filter (is_unknown news) rows) ≡ []
  none_unknown news [] = refl
  none_unknown news (row ∷ rows) = ground (arith, none_unknown news rows)

  pub unknown_none :
      (news : List Row) (rows : List Row)
      → filter (is_unknown news) (filter (λ row. contains (map id_of news) (id_of row)) rows) ≡ []
  unknown_none news [] = refl
  unknown_none news (row ∷ rows) = ground (arith, unknown_none news rows)

  pub all_known :
      (ids : List String) (news : List Row)
      → ((k : String) → contains (map id_of news) k ≡ true → contains ids k ≡ true)
      → all (λ row. contains ids (id_of row)) news ≡ true
  all_known ids [] h = refl
  all_known ids (new ∷ news) h = ground (
    arith,
    h (id_of new) (ground (arith, eq_refl (id_of new))),
    all_known ids news (λ k e. h k (ground (arith, e))),
  )

  pub only_news :
      (ids : List String) (rows news : List Row)
      → map id_of news ≡ ids
      → filter (λ row. contains ids (id_of row)) (filter (is_unknown news) rows ++ news) ≡ news
  only_news ids rows news e = rw (sym e) (
      filter-append (λ row. contains (map id_of news) (id_of row)) (filter (is_unknown news) rows)
        news
      ∙ rw (none_unknown news rows) (
          filter_of_all (λ row. contains (map id_of news) (id_of row)) news
            (all_known (map id_of news) news (λ k h. h))))

pub put_pages-rows :
    (rows pages : List StepPage)
    → put_pages rows pages
      ≡ put_rows (λ (r : StepPage). r.step_id) (λ (r : StepPage). r.id) rows pages
unfolding put_pages put_page
put_pages-rows rows [] = refl
put_pages-rows rows (page ∷ pages) = put_pages-rows (put_page rows page) pages

pub put_slots-rows :
    (rows slots : List StepPageSlot)
    → put_slots rows slots
      ≡ put_rows (λ (r : StepPageSlot). r.step_id) (λ (r : StepPageSlot). r.id) rows slots
unfolding put_slots put_slot
put_slots-rows rows [] = refl
put_slots-rows rows (slot ∷ slots) = put_slots-rows (put_slot rows slot) slots
