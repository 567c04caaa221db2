-- ===== src/Operations/Lifecycle.antt =====
-- The life of an operation: how its status can change, whatever statements are run in whatever
-- order.
use wanderbound.Prelude.{
  ℕ, ◌≡◌, refl, ◌∙◌, ap, subst, arith, String, Bool, true, false, not, ◌&&◌, ◌||◌, ◌==◌, string_eq,
  nat_eq, Option, none, some, List, [], ◌∷◌, ◌++◌, if◌then◌else◌, ltb, eq_refl, Bool-cases, inl,
  inr,
}
use wanderbound.Operations.{
  Status, queued, running, succeeded, failed, cancelled, stale, Operation, is_active, is_terminal,
  is_stale, update_where, is_active_row, coalesce, create_processing_operation,
  mark_processing_operation_running, complete_processing_operation,
  mark_user_processing_operations_stale,
}

unfoldable pub find_operation : List Operation → String → Option Operation
find_operation [] id = none
find_operation (row ∷ rows) id = if row.operation_id == id then some row else find_operation rows id

-- the statuses in the order of an operation's life
unfoldable pub stage : Status → ℕ
stage queued = 0
stage running = 1
stage succeeded = 2
stage failed = 3
stage cancelled = 4
stage stale = 5

-- The changes that are allowed: an active operation moves on, and one that has ended keeps its
-- result until it is stale, for good.
unfoldable pub may_become : Status → Status → Bool
may_become before after =
    stage before == stage after
    || ltb (stage before) (stage after) && (is_active before || is_stale after)

-- what no statement changes, and the statuses in order
pub record IsLater (before after : Operation) : Type 0 where
  pub same_id : before.operation_id ≡ after.operation_id
  pub same_user : before.uid ≡ after.uid
  pub same_generation : before.upload_generation ≡ after.upload_generation
  pub same_workflow : before.workflow_id ≡ after.workflow_id
  pub same_creation : before.created_at ≡ after.created_at
  pub allowed : may_become before.status after.status ≡ true

module _ (workflow_id_for_operation : String → String) where
  -- one statement
  pub data Change : List Operation → List Operation → Type 0 where
    created :
        {rows : List Operation} (uid generation : ℕ) (new_id : String) (now : ℕ)
        → Change rows
            (create_processing_operation workflow_id_for_operation rows uid generation new_id now)
    marked :
        {rows : List Operation} (id : String) (executor : Option String) (now : ℕ)
        → Change rows (mark_processing_operation_running rows id executor now).0
    completed :
        {rows : List Operation} (id : String) (status : Status) (error_code : Option String)
        (now : ℕ) (after : List Operation) (changed : Bool)
        → complete_processing_operation rows id status error_code now ≡ some (after, changed)
        → Change rows after
    made_stale :
        {rows : List Operation} (uid now : ℕ)
        → Change rows (mark_user_processing_operations_stale rows uid now).0

  pub data History : List Operation → List Operation → Type 0 where
    start : {rows : List Operation} → History rows rows
    more :
        {rows middle after : List Operation}
        → History rows middle
        → Change middle after
        → History rows after

find-append :
    (rows new : List Operation) (id : String) (a : Operation)
    → find_operation rows id ≡ some a
    → find_operation (rows ++ new) id ≡ some a
unfolding find_operation
find-append [] new id a h = cc
find-append (row ∷ rows) new id a h = elim (Bool-cases (row.operation_id == id)) [
  | inl here ↦ rw here (rw here at h)
  | inr elsewhere ↦ rw elsewhere (find-append rows new id a (rw elsewhere at h))
]

-- A statement that keeps the ids replaces the row found by the row it sets.
pub find-update :
    (chosen : Operation → Bool) (set : Operation → Operation)
    → ((row : Operation) → (set row).operation_id ≡ row.operation_id)
    → (rows : List Operation) (id : String) (a : Operation) → find_operation rows id ≡ some a
    → find_operation (update_where chosen set rows) id ≡ some (if chosen a then set a else a)
unfolding find_operation update_where
find-update chosen set same [] id a h = cc
find-update chosen set same (row ∷ rows) id a h = elim (Bool-cases (row.operation_id == id)) [
  | inl here ↦ elim (Bool-cases (chosen row)) [
    | inl hit ↦ ground (arith, same row)
    | inr missed ↦ ground arith
  ]
  | inr elsewhere ↦ elim (Bool-cases (chosen row)) [
    | inl hit ↦ ground (arith, same row, find-update chosen set same rows id a (rw elsewhere at h))
    | inr missed ↦ ground (arith, find-update chosen set same rows id a (rw elsewhere at h))
  ]
]

is_active-eq : (s : Status) → is_active s ≡ ltb (stage s) 2
unfolding stage is_active
is_active-eq queued = refl
is_active-eq running = refl
is_active-eq succeeded = refl
is_active-eq failed = refl
is_active-eq cancelled = refl
is_active-eq stale = refl

is_stale-eq : (s : Status) → is_stale s ≡ (stage s == 5)
unfolding stage is_stale
is_stale-eq queued = refl
is_stale-eq running = refl
is_stale-eq succeeded = refl
is_stale-eq failed = refl
is_stale-eq cancelled = refl
is_stale-eq stale = refl

may_become_refl : (s : Status) → may_become s s ≡ true
unfolding may_become
may_become_refl s = ground (arith, eq_refl (stage s))

may_become_trans :
    (a b c : Status) → may_become a b ≡ true → may_become b c ≡ true → may_become a c ≡ true
unfolding may_become
may_become_trans a b c h k =
    ground (arith, is_active-eq a, is_active-eq b, is_stale-eq b, is_stale-eq c)

IsLater-refl : (a : Operation) → IsLater a a
IsLater-refl a = record {
  same_id = refl;
  same_user = refl;
  same_generation = refl;
  same_workflow = refl;
  same_creation = refl;
  allowed = may_become_refl a.status;
}

IsLater-trans : (a b c : Operation) → IsLater a b → IsLater b c → IsLater a c
IsLater-trans a b c h k = record {
  same_id = h.same_id ∙ k.same_id;
  same_user = h.same_user ∙ k.same_user;
  same_generation = h.same_generation ∙ k.same_generation;
  same_workflow = h.same_workflow ∙ k.same_workflow;
  same_creation = h.same_creation ∙ k.same_creation;
  allowed = may_become_trans a.status b.status c.status h.allowed k.allowed;
}

pub some-injective : {A : Type 0} {a b : A} → some a ≡ some b → a ≡ b
some-injective e = cc

abbrev pub Later : List Operation → String → Operation → Type 0
Later rows id a = (b : Operation) × (find_operation rows id ≡ some b) × IsLater a b

update-Later :
    (chosen : Operation → Bool) (set : Operation → Operation)
    → ((row : Operation) → (set row).operation_id ≡ row.operation_id)
    → ((row : Operation) → chosen row ≡ true → IsLater row (set row))
    → (rows : List Operation) (id : String) (a : Operation) → find_operation rows id ≡ some a
    → Later (update_where chosen set rows) id a
update-Later chosen set same later rows id a h = elim (Bool-cases (chosen a)) [
  | inl hit ↦ (set a, find-update chosen set same rows id a h ∙ rw hit refl, later a hit)
  | inr missed ↦ (a, find-update chosen set same rows id a h ∙ rw missed refl, IsLater-refl a)
]

-- an active row may get any later status, and nothing else that matters changes
running-IsLater :
    (id : String) (executor : Option String) (now : ℕ) (row : Operation)
    → is_active_row id row ≡ true
    → IsLater row (record row {
      status = running;
      started_by_executor_id = executor;
      started_at = some (coalesce row.started_at now);
      updated_at = now;
    })
unfolding may_become stage
running-IsLater id executor now row h = record {
  same_id = refl;
  same_user = refl;
  same_generation = refl;
  same_workflow = refl;
  same_creation = refl;
  allowed = ground (arith, is_active-eq row.status);
}

terminal-IsLater :
    (id : String) (status : Status) (error_code : Option String) (now : ℕ) (row : Operation)
    → is_terminal status ≡ true
    → is_active_row id row ≡ true
    → IsLater row (record row {
      status = status;
      error_code = error_code;
      completed_at = some now;
      updated_at = now;
    })
unfolding may_become is_terminal
terminal-IsLater id status error_code now row h k = record {
  same_id = refl;
  same_user = refl;
  same_generation = refl;
  same_workflow = refl;
  same_creation = refl;
  allowed = ground (arith, is_active-eq row.status, is_active-eq status);
}

may_become-stale : (s : Status) → may_become s stale ≡ true
unfolding may_become stage is_active is_stale
may_become-stale queued = refl
may_become-stale running = refl
may_become-stale succeeded = refl
may_become-stale failed = refl
may_become-stale cancelled = refl
may_become-stale stale = refl

stale-IsLater :
    (now : ℕ) (row : Operation)
    → is_stale row.status ≡ false
    → IsLater row (record row { status = stale; updated_at = now })
stale-IsLater now row h = record {
  same_id = refl;
  same_user = refl;
  same_generation = refl;
  same_workflow = refl;
  same_creation = refl;
  allowed = may_become-stale row.status;
}

module _ (workflow_id_for_operation : String → String) where
  Change-Later :
      {before after : List Operation} (id : String) (a : Operation)
      → find_operation before id ≡ some a
      → Change workflow_id_for_operation before after
      → Later after id a
  unfolding create_processing_operation mark_processing_operation_running
      complete_processing_operation mark_user_processing_operations_stale
  Change-Later {before} id a h (created uid generation new_id now) =
      (a, find-append before _ id a h, IsLater-refl a)
  Change-Later {before} id a h (marked other executor now) =
      update-Later (is_active_row other) _ (λ row. refl) (running-IsLater other executor now) before
        id a h
  Change-Later {before} id a h (completed other status error_code now after changed e) =
      elim (Bool-cases (is_terminal status)) [
        | inl ended ↦
            let same = some-injective (rw ended at e) in
            subst (λ rows. Later rows id a) (ap (λ p. p.0) same)
              (update-Later (is_active_row other) _ (λ row. refl)
                (λ row. terminal-IsLater other status error_code now row ended) before id a h)
        | inr going ↦ absurd (ground (arith, e))
      ]
  Change-Later {before} id a h (made_stale uid now) =
      update-Later (λ row. row.uid == uid && not (is_stale row.status)) _ (λ row. refl)
        (λ row hit. stale-IsLater now row (ground arith)) before id a h

  -- Whatever statements have run since, in whatever order, an operation that was in the table is
  -- still there, with its user, generation, workflow and creation time, and with a status that
  -- follows the earlier one: a stale operation stays stale, one that ended is as it ended or stale,
  -- and a running one is never back in the queue.
  pub History-Later :
      {before after : List Operation} (id : String) (a : Operation)
      → find_operation before id ≡ some a
      → History workflow_id_for_operation before after
      → Later after id a
  History-Later id a h start = (a, h, IsLater-refl a)
  History-Later id a h (more history change) =
      let (b, found, later) = History-Later id a h history in
      let (c, found_after, later_after) = Change-Later id b found change in
      (c, found_after, IsLater-trans a b c later later_after)
