-- ===== src/StepMedia/Prepend.antt =====
-- Photos that are put in front of a step's unused ones.
use wanderbound.Prelude.{
  ℕ, ◌+◌, ◌≡◌, refl, ◌∙◌, ap, arith, String, false, not, ◌==◌, nat_eq, List, [], ◌∷◌, ◌++◌, map,
  filter, filter-append, append_nil, leb,
}
use wanderbound.StepMedia.{
  StepUnusedMedia, StepRow, Tables, step_to_read, unused_in_order, read_rows, unused_rows,
  prepend_step_unused_media,
}
use wanderbound.StepMedia.Order.{sorted_of_IsSorted}
use wanderbound.StepMedia.Rows.{unused_rows-step, unused_rows-IsSorted, names-unused}
use wanderbound.StepMedia.Saved.{selected}

filter_none :
    (i : ℕ) (rows : List StepUnusedMedia)
    → filter (λ row. row.step_id == i) (filter (λ row. not (row.step_id == i)) rows) ≡ []
filter_none i [] = refl
filter_none i (row ∷ rows) = ground (arith, filter_none i rows)

filter_others :
    (i j : ℕ) (rows : List StepUnusedMedia)
    → (i == j) ≡ false
    → filter (λ row. row.step_id == j) (filter (λ row. not (row.step_id == i)) rows)
      ≡ filter (λ row. row.step_id == j) rows
filter_others i j [] h = refl
filter_others i j (row ∷ rows) h = ground (arith, filter_others i j rows h)

unselected :
    (i j n : ℕ) (names : List String)
    → (i == j) ≡ false
    → filter (λ row. row.step_id == j) (unused_rows i n names) ≡ []
unfolding unused_rows
unselected i j n [] h = refl
unselected i j n (name ∷ names) h = rw h (unselected i j (n + 1) names h)

module _ {Rest : Type 0} (tables : Tables Rest) (names : List String) where
  -- Afterwards the step shows the new names in their order and then the unused ones that it had, in
  -- theirs.
  pub prepend_step_unused_media-unused :
      (step : StepRow Rest)
      → (read_rows (prepend_step_unused_media tables step.id names) step).unused
        ≡ names ++ (read_rows tables step).unused
  unfolding read_rows step_to_read prepend_step_unused_media
  prepend_step_unused_media-unused step =
      let merged =
        names
        ++ map (λ (row : StepUnusedMedia). row.media_name)
            (unused_in_order (filter (λ row. row.step_id == step.id) tables.unused)) in
      ap (λ rows. map (λ (row : StepUnusedMedia). row.media_name) (unused_in_order rows))
        (selected (λ (row : StepUnusedMedia). row.step_id == step.id)
          (filter (λ row. not (row.step_id == step.id)) tables.unused)
          (unused_rows step.id 0 merged) (filter_none step.id tables.unused)
          (unused_rows-step step.id 0 merged))
      ∙ ap (map (λ (row : StepUnusedMedia). row.media_name)) (
          sorted_of_IsSorted (λ (a b : StepUnusedMedia). leb a.position_index b.position_index)
            (unused_rows step.id 0 merged) (unused_rows-IsSorted step.id 0 merged))
      ∙ names-unused step.id 0 merged

  -- Every other step shows what it showed.
  pub prepend_step_unused_media-other :
      (step_id : ℕ) (other : StepRow Rest)
      → (step_id == other.id) ≡ false
      → read_rows (prepend_step_unused_media tables step_id names) other ≡ read_rows tables other
  unfolding read_rows step_to_read prepend_step_unused_media
  prepend_step_unused_media-other step_id other h =
      let merged =
        names
        ++ map (λ (row : StepUnusedMedia). row.media_name)
            (unused_in_order (filter (λ row. row.step_id == step_id) tables.unused)) in
      rw
        (
          filter-append (λ (row : StepUnusedMedia). row.step_id == other.id)
              (filter (λ row. not (row.step_id == step_id)) tables.unused)
              (unused_rows step_id 0 merged),
          filter_others step_id other.id tables.unused h,
          unselected step_id other.id 0 merged h,
          append_nil (filter (λ (row : StepUnusedMedia). row.step_id == other.id) tables.unused),
        )
        refl
