-- ===== src/Operations/Rows.antt =====
-- The rows of one operation when they are numbered from 0 without gaps.
use wanderbound.Prelude.{
  ℕ, zero, suc, subst, ◌+◌, ◌≤◌, ◌≡◌, refl, ◌∙◌, ap, arith, String, ◌==◌, string_eq, nat_eq, none,
  some, List, [], ◌∷◌, ◌++◌, map, filter, leb, length, drop, Bool-cases, inl, inr,
}
use wanderbound.Prelude.Sorting.{sorted, insert_sorted}
use wanderbound.Operations.Events.{
  EventRow, rows_of, by_seq, max_seq, next_after, next_event_seq, get_event, read_processing_events,
}

module _ {Payload : Type 0} where
  abbrev pub Contiguous : ℕ → List (EventRow Payload) → Type 0
  Contiguous n [] = Unit
  Contiguous n (row ∷ rows) = (row.seq ≡ n) × Contiguous (n + 1) rows

  pub Contiguous-append :
      (n : ℕ) (rows : List (EventRow Payload)) (row : EventRow Payload)
      → Contiguous n rows
      → row.seq ≡ n + length rows
      → Contiguous n (rows ++ row ∷ [])
  Contiguous-append n [] row h e = (omega arith, tt)
  Contiguous-append n (first ∷ rows) row h e =
      (h.0, Contiguous-append (n + 1) rows row h.1 (omega arith))

  pub Contiguous-drop :
      (n k : ℕ) (rows : List (EventRow Payload))
      → Contiguous n rows
      → Contiguous (n + k) (drop k rows)
  Contiguous-drop n zero rows h = subst (λ m. Contiguous m rows) (omega arith) h
  Contiguous-drop n (suc k) [] h = tt
  Contiguous-drop n (suc k) (row ∷ rows) h =
      subst (λ m. Contiguous m (drop k rows)) (omega arith) (Contiguous-drop (n + 1) k rows h.1)

  pub sorted-Contiguous :
      (n : ℕ) (rows : List (EventRow Payload)) → Contiguous n rows → sorted by_seq rows ≡ rows
  unfolding sorted insert_sorted
  sorted-Contiguous n [] h = refl
  sorted-Contiguous n (row ∷ []) h = refl
  sorted-Contiguous n (row ∷ after ∷ rows) h =
      ap (insert_sorted by_seq row) (sorted-Contiguous (n + 1) (after ∷ rows) h.1)
      ∙ ground (arith, h.0, h.1.0)

  filter-all_from :
      (n m : ℕ) (rows : List (EventRow Payload))
      → Contiguous n rows
      → m ≤ n
      → filter (λ row. leb m row.seq) rows ≡ rows
  filter-all_from n m [] h low = refl
  filter-all_from n m (row ∷ rows) h low =
      ground (arith, h.0, filter-all_from (n + 1) m rows h.1 (omega arith))

  -- the rows from a number on
  pub filter-Contiguous :
      (n k m : ℕ) (rows : List (EventRow Payload))
      → Contiguous n rows
      → m ≡ n + k
      → filter (λ row. leb m row.seq) rows ≡ drop k rows
  filter-Contiguous n zero m rows h e = filter-all_from n m rows h (omega arith)
  filter-Contiguous n (suc k) m [] h e = refl
  filter-Contiguous n (suc k) m (row ∷ rows) h e =
      ground (arith, h.0, filter-Contiguous (n + 1) k m rows h.1 (omega arith))

  max_seq-Contiguous :
      (n : ℕ) (row : EventRow Payload) (rows : List (EventRow Payload))
      → Contiguous n (row ∷ rows)
      → max_seq (row ∷ rows) ≡ some (n + length rows)
  unfolding max_seq
  max_seq-Contiguous n row [] h = ap some (omega (arith, h.0))
  max_seq-Contiguous n row (after ∷ rows) h =
      rw (max_seq-Contiguous (n + 1) after rows h.1) (ap some (omega (arith, h.0)))

  next_after-Contiguous :
      (rows : List (EventRow Payload)) → Contiguous 0 rows → next_after (max_seq rows) ≡ length rows
  unfolding next_after max_seq
  next_after-Contiguous [] h = refl
  next_after-Contiguous (row ∷ rows) h = rw (max_seq-Contiguous 0 row rows h) (omega arith)

  pub next_event_seq-Contiguous :
      (events : List (EventRow Payload)) (id : String)
      → Contiguous 0 (rows_of events id)
      → next_event_seq events id ≡ length (rows_of events id)
  unfolding next_event_seq
  next_event_seq-Contiguous events id h = next_after-Contiguous (rows_of events id) h

  pub get_event-none :
      (n seq : ℕ) (events : List (EventRow Payload)) (id : String)
      → Contiguous n (rows_of events id)
      → n + length (rows_of events id) ≤ seq
      → get_event events id seq ≡ none
  unfolding get_event
  get_event-none n seq [] id h k = refl
  get_event-none n seq (row ∷ events) id h k = elim (Bool-cases (row.operation_id == id)) [
    | inl here ↦
        let rows = rw here at h in
        let few = rw here at k in
        ground (arith, here, rows.0, get_event-none (n + 1) seq events id rows.1 (omega arith))
    | inr elsewhere ↦
        ground
          (arith, elsewhere, get_event-none n seq events id (rw elsewhere at h) (rw elsewhere at k))
  ]

  pub get_event-missing :
      (n seq : ℕ) (events : List (EventRow Payload)) (id : String)
      → Contiguous n (rows_of events id)
      → n ≤ seq
      → get_event events id seq ≡ none
      → n + length (rows_of events id) ≤ seq
  unfolding get_event
  get_event-missing n seq [] id h low e = omega arith
  get_event-missing n seq (row ∷ events) id h low e = elim (Bool-cases (row.operation_id == id)) [
    | inl here ↦ elim (Bool-cases (row.seq == seq)) [
      | inl found ↦ absurd (ground arith)
      | inr behind ↦
          let rows = rw here at h in ground (arith, get_event-missing (n + 1) seq events id rows.1)
    ]
    | inr elsewhere ↦ ground (arith, get_event-missing n seq events id (rw elsewhere at h) low)
  ]

  map-drop :
      {Event : Type 0} (f : EventRow Payload → Event) (k : ℕ) (rows : List (EventRow Payload))
      → map f (drop k rows) ≡ drop k (map f rows)
  map-drop f zero rows = refl
  map-drop f (suc k) [] = refl
  map-drop f (suc k) (row ∷ rows) = map-drop f k rows

  -- what a reader from a number on is given
  pub read_processing_events-Contiguous :
      {Event : Type 0} (validate : Payload → Event) (events : List (EventRow Payload)) (id : String)
      (k : ℕ)
      → Contiguous 0 (rows_of events id)
      → read_processing_events validate events id k
        ≡ drop k (map (λ row. validate row.payload) (rows_of events id))
  unfolding read_processing_events
  read_processing_events-Contiguous validate events id k h =
      ap (λ rows. map (λ row. validate row.payload) (sorted by_seq rows))
        (filter-Contiguous 0 k k (rows_of events id) h (omega arith))
      ∙ ap (map (λ row. validate row.payload)) (
          sorted-Contiguous (0 + k) (drop k (rows_of events id))
            (Contiguous-drop 0 k (rows_of events id) h))
      ∙ map-drop (λ row. validate row.payload) k (rows_of events id)
