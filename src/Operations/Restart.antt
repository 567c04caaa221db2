-- ===== src/Operations/Restart.antt =====
-- A processing workflow that is cut off and run again, as its recovery does: each run goes
-- through the events from number 0 on.
use wanderbound.Prelude.{
  map-append, ℕ, zero, suc, ◌+◌, ◌≤◌, ◌≡◌, refl, sym, ◌∙◌, ap, subst, arith, String, ◌==◌,
  string_eq, eq_refl, Option-cases, List, [], ◌∷◌, ◌++◌, map, filter-append, append_nil, length,
  length-append, length-map, length-take, take, drop, inl, inr,
}
use wanderbound.Operations.Events.{
  EventRow, Store, rows_of, get_event, add_event, append_processing_event_once, persist_events,
  read_processing_events,
}
use wanderbound.Operations.Rows.{
  Contiguous, Contiguous-append, get_event-none, get_event-missing,
  read_processing_events-Contiguous,
}

module _ {ℓ} {A : Type ℓ} where
  pub take-all : (k : ℕ) (xs : List A) → length xs ≤ k → take k xs ≡ xs
  take-all zero [] h = refl
  take-all zero (x ∷ xs) h = absurd (omega arith)
  take-all (suc k) [] h = refl
  take-all (suc k) (x ∷ xs) h = ap (◌∷◌ x) (take-all k xs (omega arith))

-- under each number what is told already, and only then what is new
abbrev pub told_first : {A : Type 0} → List A → List A → List A
told_first [] news = news
told_first (first ∷ told) [] = first ∷ told
told_first (first ∷ told) (new ∷ news) = first ∷ told_first told news

abbrev pub told_by : {A : Type 0} → List A → List (List A × (ℕ → ℕ)) → List A
told_by told [] = told
told_by told ((events, clock) ∷ runs) = told_by (told_first told events) runs

map-told_first :
    {A B : Type 0} (f : A → B) (told news : List A)
    → told_first (map f told) (map f news) ≡ map f (told_first told news)
map-told_first f [] news = refl
map-told_first f (first ∷ told) [] = refl
map-told_first f (first ∷ told) (new ∷ news) = ap (◌∷◌ (f first)) (map-told_first f told news)

append_one :
    {A : Type 0} (xs : List A) (x : A) (ys : List A) → (xs ++ (x ∷ [])) ++ ys ≡ xs ++ x ∷ ys
append_one [] x ys = refl
append_one (y ∷ xs) x ys = ap (◌∷◌ y) (append_one xs x ys)

-- The rows of an operation are the first ones of a run that records `payloads`.
pub record Recorded {Payload : Type 0} (events : List (EventRow Payload)) (id : String)
    (payloads : List Payload) : Type 0 where
  pub numbered : Contiguous 0 (rows_of events id)
  pub begins :
      map (λ row. row.payload) (rows_of events id) ≡ take (length (rows_of events id)) payloads

abbrev pub recorded : {Payload : Type 0} → List (EventRow Payload) → String → ℕ
recorded events id = length (rows_of events id)

pub recorded-le :
    {Payload : Type 0} (events : List (EventRow Payload)) (id : String) (payloads : List Payload)
    → Recorded events id payloads
    → recorded events id ≤ length payloads
recorded-le events id payloads h = omega (
  arith,
  ap length h.begins,
  length-map (λ (row : EventRow _). row.payload) (rows_of events id),
  length-take {0} (recorded events id) payloads,
)

module _ {Event Payload : Type 0} (dump : Event → Payload) (type_of : Payload → String)
    (id : String) where
  rows_of-add_event :
      (store : Store Payload) (seq : ℕ) (event : Event) (now : ℕ)
      → rows_of (add_event dump type_of store id seq event now).0.events id
        ≡ rows_of store.events id ++ (add_event dump type_of store id seq event now).1 ∷ []
  unfolding add_event
  rows_of-add_event store seq event now =
      filter-append (λ (row : EventRow Payload). row.operation_id == id) store.events _
      ∙ rw (eq_refl id) refl

  -- The rows of the operation are numbered from 0 on and have these payloads.
  abbrev Exactly : List (EventRow Payload) → List Payload → Type 0
  Exactly events told =
      Contiguous 0 (rows_of events id)
      × (map (λ (row : EventRow Payload). row.payload) (rows_of events id) ≡ told)

  length-Exactly :
      (events : List (EventRow Payload)) (told : List Payload)
      → Exactly events told
      → length (rows_of events id) ≡ length told
  length-Exactly events told h = omega (
    arith,
    ap length h.1,
    length-map (λ (row : EventRow Payload). row.payload) (rows_of events id),
  )

  add_event-Exactly :
      (store : Store Payload) (event : Event) (seq now : ℕ) (told : List Payload)
      → Exactly store.events told
      → seq ≡ length told
      → Exactly (add_event dump type_of store id seq event now).0.events (told ++ dump event ∷ [])
  unfolding add_event
  add_event-Exactly store event seq now told h at_end =
      let rows = rows_of store.events id in
      let grown = rows_of-add_event store seq event now in
      (
        rw grown (
            Contiguous-append 0 rows _ h.0
              (omega (arith, at_end, length-Exactly store.events told h))),
        rw grown (
            map-append (λ (r : EventRow Payload). r.payload) rows _
            ∙ ap (λ xs. xs ++ dump event ∷ []) h.1),
      )

  once-new :
      (store : Store Payload) (event : Event) (seq now : ℕ) (told : List Payload)
      → Exactly store.events told
      → seq ≡ length told
      → Exactly
          (append_processing_event_once dump type_of store id event seq now).0.events
          (told ++ dump event ∷ [])
  unfolding append_processing_event_once
  once-new store event seq now told h at_end = elim (Option-cases (get_event store.events id seq)) [
    | inl missing ↦
        rw (append_processing_event_once, missing)
          (add_event-Exactly store event seq now told h at_end)
    | inr (row, found) ↦ absurd (
        ground (
          arith,
          get_event-none 0 seq store.events id h.0,
          found,
          at_end,
          length-Exactly store.events told h,
        ))
  ]

  once-old :
      (store : Store Payload) (event : Event) (seq now : ℕ) (told : List Payload)
      → Exactly store.events told
      → seq + 1 ≤ length told
      → Exactly (append_processing_event_once dump type_of store id event seq now).0.events told
  unfolding append_processing_event_once
  once-old store event seq now told h before = elim (Option-cases (get_event store.events id seq)) [
    | inl missing ↦
        let short = get_event-missing 0 seq store.events id h.0 (omega arith) missing in
        absurd (omega (arith, short, before, length-Exactly store.events told h))
    | inr (row, found) ↦ rw (append_processing_event_once, found) h
  ]

  persist_events-Exactly :
      (store : Store Payload) (events : List Event) (seq : ℕ) (clock : ℕ → ℕ)
      (before told : List Payload)
      → Exactly store.events (before ++ told)
      → seq ≡ length before
      → Exactly
          (persist_events dump type_of store id events seq clock).events
          (before ++ told_first told (map dump events))
  unfolding persist_events
  persist_events-Exactly store [] seq clock before [] h low = h
  persist_events-Exactly store [] seq clock before (first ∷ told) h low = h
  persist_events-Exactly store (event ∷ events) seq clock before [] h low =
      let after = (append_processing_event_once dump type_of store id event seq (clock seq)).0 in
      subst (Exactly (persist_events dump type_of after id events (seq + 1) clock).events)
        (append_one before (dump event) (told_first [] (map dump events)))
        (persist_events-Exactly after events (seq + 1) clock (before ++ dump event ∷ []) []
          (subst (Exactly after.events) (sym (append_nil (before ++ dump event ∷ []))) (
            once-new store event seq (clock seq) before
              (subst (Exactly store.events) (append_nil before) h) low))
          (omega (arith, low, length-append before (dump event ∷ []))))
  persist_events-Exactly store (event ∷ events) seq clock before (first ∷ told) h low =
      let after = (append_processing_event_once dump type_of store id event seq (clock seq)).0 in
      subst (Exactly (persist_events dump type_of after id events (seq + 1) clock).events)
        (append_one before first (told_first told (map dump events)))
        (persist_events-Exactly after events (seq + 1) clock (before ++ first ∷ []) told
          (subst (Exactly after.events) (sym (append_one before first told)) (
            once-old store event seq (clock seq) (before ++ first ∷ told) h
              (omega (arith, low, length-append before (first ∷ told)))))
          (omega (arith, low, length-append before (first ∷ []))))

  -- The runs of an operation, one after the other: each persists its events from number 0 on, as
  -- many of them as it comes to before it is cut off.
  abbrev pub persist_runs : Store Payload → List (List Event × (ℕ → ℕ)) → Store Payload
  persist_runs store [] = store
  persist_runs store ((events, clock) ∷ runs) =
      persist_runs (persist_events dump type_of store id events 0 clock) runs

  persist_runs-Exactly :
      (store : Store Payload) (told : List Event) (runs : List (List Event × (ℕ → ℕ)))
      → Exactly store.events (map dump told)
      → Exactly (persist_runs store runs).events (map dump (told_by told runs))
  persist_runs-Exactly store told [] h = h
  persist_runs-Exactly store told ((events, clock) ∷ runs) h =
      let after = persist_events dump type_of store id events 0 clock in
      persist_runs-Exactly after (told_first told events) runs (
        subst (Exactly after.events) (map-told_first dump told events)
          (persist_events-Exactly store events 0 clock [] (map dump told) h refl))

  module _ (validate : Payload → Event)
      (round_trip : (event : Event) → validate (dump event) ≡ event) where
    validate-take :
        (k : ℕ) (events : List Event) → map validate (take k (map dump events)) ≡ take k events
    validate-take zero events = refl
    validate-take (suc k) [] = refl
    validate-take (suc k) (event ∷ events) =
        ap (λ e. e ∷ map validate (take k (map dump events))) (round_trip event)
        ∙ ap (◌∷◌ event) (validate-take k events)

    map-map :
        (rows : List (EventRow Payload))
        → map (λ row. validate row.payload) rows ≡ map validate (map (λ row. row.payload) rows)
    map-map [] = refl
    map-map (row ∷ rows) = ap (◌∷◌ (validate row.payload)) (map-map rows)

    -- a reader gets what is recorded from the number on
    pub read-Recorded :
        (events : List (EventRow Payload)) (all_events : List Event) (k : ℕ)
        → Recorded events id (map dump all_events)
        → read_processing_events validate events id k
          ≡ drop k (take (recorded events id) all_events)
    read-Recorded events all_events k h =
        read_processing_events-Contiguous validate events id k h.numbered
        ∙ ap (drop k) (
            map-map (rows_of events id)
            ∙ ap (map validate) h.begins
            ∙ validate-take (recorded events id) all_events)

    validate-map : (events : List Event) → map validate (map dump events) ≡ events
    validate-map [] = refl
    validate-map (event ∷ events) =
        ap (λ e. e ∷ map validate (map dump events)) (round_trip event)
        ∙ ap (◌∷◌ event) (validate-map events)

    -- However often the processing of an upload was cut off and run again, whatever events each run
    -- produced and however far it came, a reader is given, under each number, the event of the first
    -- run that came to that number, in the order of the numbers and each once. So no run changes
    -- what readers were told before it. This is for an operation that had no events before, and
    -- payloads from which the events can be read back.
    pub persist_events-restart :
        (store : Store Payload) (runs : List (List Event × (ℕ → ℕ)))
        → rows_of store.events id ≡ []
        → read_processing_events validate (persist_runs store runs).events id 0 ≡ told_by [] runs
    persist_events-restart store runs h =
        let after = persist_runs store runs in
        let kept = persist_runs-Exactly store [] runs (rw h tt, rw h refl) in
        read_processing_events-Contiguous validate after.events id 0 kept.0
        ∙ map-map (rows_of after.events id)
        ∙ ap (map validate) kept.1
        ∙ validate-map (told_by [] runs)
