-- ===== src/Operations/Poll.antt =====
-- `_poll_persisted_operation` of backend/app/logic/session.py: a client follows an operation by
-- reading its rows again and again, while the workflow appends to them. One turn of the loop is
-- what its three queries see; the turns are a list.
use wanderbound.Prelude.{
  ℕ, zero, suc, ◌+◌, ◌≤◌, ◌≡◌, refl, sym, ◌∙◌, ap, arith, String, Bool, true, false, Option, none,
  some, List, [], ◌∷◌, ◌++◌, map, all, length-map, length, length-take, length-drop, take, drop,
  if◌then◌else◌,
}
use wanderbound.Operations.{Status, is_active}
use wanderbound.Operations.Events.{EventRow, read_processing_events}
use wanderbound.Operations.Restart.{Recorded, recorded, recorded-le, take-all, read-Recorded}

pub record Turn (Payload : Type 0) : Type 0 where
  pub rows : List (EventRow Payload)
  pub status : Option Status
  pub rows_after : List (EventRow Payload)

-- `status in {"queued", "running"}`, where a missing operation has no status
unfoldable pub goes_on : Option Status → Bool
unfolding is_active
goes_on none = false
goes_on (some status) = is_active status

module _ {Event Payload : Type 0} (validate : Payload → Event) where
  unfoldable pub poll_persisted_operation : List (Turn Payload) → String → ℕ → List Event
  unfolding goes_on read_processing_events
  poll_persisted_operation [] id from_seq = []
  poll_persisted_operation (turn ∷ turns) id from_seq =
      let events = read_processing_events validate turn.rows id from_seq in
      let next_seq = from_seq + length events in
      let later = poll_persisted_operation turns id next_seq in
      events
      ++ (if goes_on turn.status
          then later
          else read_processing_events validate turn.rows_after id next_seq)

module _ {ℓ} {A : Type ℓ} where
  drop-take :
      (j k m : ℕ) (xs : List A)
      → j ≤ k
      → k ≤ m
      → k ≤ length xs
      → drop j (take k xs) ++ drop k (take m xs) ≡ drop j (take m xs)
  drop-take zero zero m xs h l n = refl
  drop-take (suc j) zero m xs h l n = absurd (omega arith)
  drop-take j (suc k) zero xs h l n = absurd (omega arith)
  drop-take j (suc k) (suc m) [] h l n = absurd (omega arith)
  drop-take zero (suc k) (suc m) (x ∷ xs) h l n =
      ap (◌∷◌ x) (drop-take zero k m xs (omega arith) (omega arith) (omega arith))
  drop-take (suc j) (suc k) (suc m) (x ∷ xs) h l n =
      drop-take j k m xs (omega arith) (omega arith) (omega arith)

  joined :
      (j k : ℕ) (xs : List A) → j ≤ k → k ≤ length xs → drop j (take k xs) ++ drop k xs ≡ drop j xs
  joined j k xs h l =
      ap (λ ys. drop j (take k xs) ++ drop k ys) (sym (take-all (length xs) xs (omega arith)))
      ∙ drop-take j k (length xs) xs h l l
      ∙ ap (drop j) (take-all (length xs) xs (omega arith))

module _ {Event Payload : Type 0} (dump : Event → Payload) (type_of : Payload → String)
    (validate : Payload → Event) (round_trip : (event : Event) → validate (dump event) ≡ event)
    (id : String) (all_events : List Event) where
  -- The rows that the turns see are recorded by the run, and grow from query to query.
  abbrev pub Grows : ℕ → List (Turn Payload) → Type 0
  Grows seen [] = Unit
  Grows seen (turn ∷ turns) =
      Recorded turn.rows id (map dump all_events)
      × (seen ≤ recorded turn.rows id)
      × Recorded turn.rows_after id (map dump all_events)
      × (recorded turn.rows id ≤ recorded turn.rows_after id)
      × Grows (recorded turn.rows_after id) turns

  first_read :
      (rows : List (EventRow Payload)) (k : ℕ)
      → Recorded rows id (map dump all_events)
      → k ≤ recorded rows id
      → (read_processing_events validate rows id k ≡ drop k (take (recorded rows id) all_events))
        × (k + length (read_processing_events validate rows id k) ≡ recorded rows id)
        × (recorded rows id ≤ length all_events)
  first_read rows k h low =
      let read = read-Recorded dump type_of id validate round_trip rows all_events k h in
      let few = recorded-le rows id (map dump all_events) h in
      (
        read,
        omega (
          arith,
          ap length read,
          few,
          length-map dump all_events,
          length-drop {0} k (take (recorded rows id) all_events),
          length-take {0} (recorded rows id) all_events,
        ),
        omega (arith, few, length-map dump all_events),
      )

  poll_from :
      (turns : List (Turn Payload)) (last : Turn Payload) (unseen : List (Turn Payload))
      (k seen : ℕ)
      → Grows seen (turns ++ last ∷ [])
      → k ≤ seen
      → all (λ turn. goes_on turn.status) turns ≡ true
      → goes_on last.status ≡ false
      → recorded last.rows_after id ≡ length all_events
      → poll_persisted_operation validate (turns ++ last ∷ unseen) id k ≡ drop k all_events
  unfolding poll_persisted_operation
  poll_from [] last unseen k seen h low going ended full =
      let (read, next_seq, few) = first_read last.rows k h.0 (omega arith) in
      let rest = first_read last.rows_after (recorded last.rows id) h.2 h.3 in
      rw (ended, next_seq, read)
        (ap (λ xs. drop k (take (recorded last.rows id) all_events) ++ xs)
            (rest.0 ∙ ap (drop (recorded last.rows id)) (take-all _ all_events (omega arith)))
          ∙ joined k (recorded last.rows id) all_events (omega arith) few)
  poll_from (turn ∷ turns) last unseen k seen h low going ended full =
      let (read, next_seq, few) = first_read turn.rows k h.0 (omega arith) in
      let rest =
        poll_from turns last unseen (recorded turn.rows id) (recorded turn.rows_after id) h.4 h.3
          (ground arith) ended full in
      let goes : goes_on turn.status ≡ true = ground arith in
      rw (goes, next_seq, read)
        (ap (λ xs. drop k (take (recorded turn.rows id) all_events) ++ xs) rest
          ∙ joined k (recorded turn.rows id) all_events (omega arith) few)

  -- A client that follows an operation is given all its events, each once and in order, whatever
  -- it saw at which time: as long as the rows only grow, and all are there when the operation is
  -- found no longer active.
  pub poll_persisted_operation-all :
      (turns : List (Turn Payload)) (last : Turn Payload) (unseen : List (Turn Payload))
      → Grows 0 (turns ++ last ∷ [])
      → all (λ turn. goes_on turn.status) turns ≡ true
      → goes_on last.status ≡ false
      → recorded last.rows_after id ≡ length all_events
      → poll_persisted_operation validate (turns ++ last ∷ unseen) id 0 ≡ all_events
  poll_persisted_operation-all turns last unseen h going ended full =
      poll_from turns last unseen 0 0 h (omega arith) going ended full
