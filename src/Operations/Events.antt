-- ===== src/Operations/Events.antt =====
-- The event rows of an operation: the table `processing_event` and the functions of
-- backend/app/logic/processing_operations.py that read and append them, and the loop of
-- `run_and_persist_processing_events` (backend/app/logic/workflows/processing.py) that appends the
-- events of a run. The type adapter's `dump` and `validate` and the `type` of a payload are
-- parameters. `after_seq` starts at -1; it stands here as `from_seq`, which is `after_seq + 1`.
use wanderbound.Prelude.{
  ℕ, ◌+◌, String, Bool, ◌&&◌, ◌==◌, string_eq, nat_eq, Eq, Option, none, some, List, [], ◌∷◌, ◌++◌,
  map, filter, leb, max, if◌then◌else◌,
}
use wanderbound.Prelude.Sorting.{sorted}
use wanderbound.Operations.{Operation, update_where}

pub record EventRow (Payload : Type 0) : Type 0 where
  pub operation_id : String
  pub seq : ℕ
  pub event_type : String
  pub payload : Payload
  pub created_at : ℕ

-- the two tables that an append changes
pub record Store (Payload : Type 0) : Type 0 where
  pub operations : List Operation
  pub events : List (EventRow Payload)

-- `(-1 if value is None else value) + 1`
unfoldable pub next_after : Option ℕ → ℕ
next_after none = 0
next_after (some value) = value + 1

module _ {Payload : Type 0} where
  abbrev pub rows_of : List (EventRow Payload) → String → List (EventRow Payload)
  rows_of events id = filter (λ row. row.operation_id == id) events

  abbrev pub by_seq : EventRow Payload → EventRow Payload → Bool
  by_seq a b = leb a.seq b.seq

  abbrev pub by_seq_desc : EventRow Payload → EventRow Payload → Bool
  by_seq_desc a b = leb b.seq a.seq

  unfoldable pub max_seq : List (EventRow Payload) → Option ℕ
  max_seq [] = none
  max_seq (row ∷ rows) = elim (max_seq rows) [
    | none ↦ some row.seq
    | some seq ↦ some (max row.seq seq)
  ]

  unfoldable pub next_event_seq : List (EventRow Payload) → String → ℕ
  unfolding max_seq next_after
  next_event_seq events id = next_after (max_seq (rows_of events id))

  -- `session.get(ProcessingEventRow, (operation_id, seq))`
  unfoldable pub get_event : List (EventRow Payload) → String → ℕ → Option (EventRow Payload)
  get_event [] id seq = none
  get_event (row ∷ rows) id seq =
      if row.operation_id == id && row.seq == seq then some row else get_event rows id seq

  unfoldable pub first_event : List (EventRow Payload) → Option (EventRow Payload)
  first_event [] = none
  first_event (row ∷ _) = some row

  unfoldable pub last_event : List (EventRow Payload) → String → Option (EventRow Payload)
  unfolding first_event
  last_event events id = first_event (sorted by_seq_desc (rows_of events id))

module _ {Event Payload : Type 0} (dump : Event → Payload) (type_of : Payload → String) where
  -- adds the row and sets the operation's `updated_at`
  unfoldable pub add_event :
      Store Payload → String → ℕ → Event → ℕ → Store Payload × EventRow Payload
  unfolding update_where
  add_event store id seq event now =
      let row : EventRow Payload = record {
        operation_id = id;
        seq = seq;
        event_type = type_of (dump event);
        payload = dump event;
        created_at = now;
      } in
      (
        record {
          operations =
              update_where (λ operation. operation.operation_id == id)
                (λ operation. record operation { updated_at = now }) store.operations;
          events = store.events ++ row ∷ [];
        },
        row,
      )

  unfoldable pub append_processing_event :
      Store Payload → String → Event → ℕ → Store Payload × EventRow Payload
  unfolding add_event next_event_seq
  append_processing_event store id event now =
      add_event store id (next_event_seq store.events id) event now

  unfoldable pub append_processing_event_once :
      Store Payload → String → Event → ℕ → ℕ → Store Payload × EventRow Payload
  unfolding add_event get_event
  append_processing_event_once store id event seq now = elim (get_event store.events id seq) [
    | some existing ↦ (store, existing)
    | none ↦ add_event store id seq event now
  ]

  unfoldable pub append_processing_event_unless_last_matches :
      ⦃e : Eq Payload⦄ → Store Payload → String → Event → ℕ → Store Payload × EventRow Payload
  unfolding append_processing_event last_event
  append_processing_event_unless_last_matches store id event now =
      elim (last_event store.events id) [
        | none ↦ append_processing_event store id event now
        | some last ↦
            if last.payload == dump event
            then (store, last)
            else append_processing_event store id event now
      ]

  -- The loop that appends the events of a run from `seq` on; `clock` gives the times.
  unfoldable pub persist_events : Store Payload → String → List Event → ℕ → (ℕ → ℕ) → Store Payload
  unfolding append_processing_event_once
  persist_events store id [] seq clock = store
  persist_events store id (event ∷ events) seq clock =
      persist_events (append_processing_event_once store id event seq (clock seq)).0 id events
        (seq + 1) clock

unfoldable pub read_processing_events :
    {Event Payload : Type 0} → (Payload → Event) → List (EventRow Payload) → String → ℕ → List Event
read_processing_events validate events id from_seq =
    map (λ row. validate row.payload)
      (sorted by_seq (filter (λ row. leb from_seq row.seq) (rows_of events id)))
