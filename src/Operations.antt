-- ===== src/Operations.antt =====
-- The processing operations of backend/app/logic/processing_operations.py: the rows of the table
-- `processing_operation` (backend/app/models/processing.py) and the statements that change them.
-- A statement is one atomic step on the table; the time and the new operation's id are arguments.
use wanderbound.Prelude.{
  ℕ, ◌≡◌, refl, String, Bool, true, false, not, ◌&&◌, ◌==◌, string_eq, nat_eq, Option, none, some,
  List, [], ◌∷◌, ◌++◌, if◌then◌else◌, any, filter, length, leb,
}
use wanderbound.Prelude.Sorting.{sorted}
pub mod Lifecycle
pub mod Race
pub mod Events
pub mod Rows
pub mod Restart
pub mod Poll
pub mod Workflow

pub data Status : Type 0 where
  queued : Status
  running : Status
  succeeded : Status
  failed : Status
  cancelled : Status
  stale : Status

-- `status in _ACTIVE_STATUSES`
unfoldable pub is_active : Status → Bool
is_active queued = true
is_active running = true
is_active succeeded = false
is_active failed = false
is_active cancelled = false
is_active stale = false

unfoldable pub is_stale : Status → Bool
is_stale stale = true
is_stale queued = false
is_stale running = false
is_stale succeeded = false
is_stale failed = false
is_stale cancelled = false

-- `status in _TERMINAL_STATUSES`
unfoldable pub is_terminal : Status → Bool
unfolding is_active
is_terminal status = not (is_active status)

pub record Operation : Type 0 where
  pub operation_id : String
  pub uid : ℕ
  pub upload_generation : ℕ
  pub workflow_id : String
  pub status : Status
  pub started_by_executor_id : Option String
  pub error_code : Option String
  pub started_at : Option ℕ
  pub completed_at : Option ℕ
  pub created_at : ℕ
  pub updated_at : ℕ

-- `update(…).where(chosen).values(…)`
unfoldable pub update_where :
    (Operation → Bool) → (Operation → Operation) → List Operation → List Operation
update_where chosen set [] = []
update_where chosen set (row ∷ rows) =
    (if chosen row then set row else row) ∷ update_where chosen set rows

unfoldable pub coalesce : Option ℕ → ℕ → ℕ
coalesce none now = now
coalesce (some time) now = time

-- `f"processing:{operation_id}"` is a parameter.
unfoldable pub create_processing_operation :
    (String → String) → List Operation → ℕ → ℕ → String → ℕ → List Operation
create_processing_operation workflow_id_for_operation rows uid upload_generation new_id now =
    rows
    ++ record {
      operation_id = new_id;
      uid = uid;
      upload_generation = upload_generation;
      workflow_id = workflow_id_for_operation new_id;
      status = queued;
      started_by_executor_id = none;
      error_code = none;
      started_at = none;
      completed_at = none;
      created_at = now;
      updated_at = now;
    }
      ∷ []

unfoldable pub first_row : List Operation → Option Operation
first_row [] = none
first_row (row ∷ _) = some row

unfoldable pub latest_processing_operation : List Operation → ℕ → Option Operation
unfolding first_row
latest_processing_operation rows uid =
    first_row (sorted (λ a b. leb b.created_at a.created_at) (filter (λ row. row.uid == uid) rows))

-- the rows of the guard `operation_id == … and status in _ACTIVE_STATUSES`
abbrev pub is_active_row : String → Operation → Bool
is_active_row id row = row.operation_id == id && is_active row.status

unfoldable pub mark_processing_operation_running :
    List Operation → String → Option String → ℕ → List Operation × Bool
unfolding update_where coalesce
mark_processing_operation_running rows id executor_id now = (
  update_where (is_active_row id)
      (λ row. record row {
        status = running;
        started_by_executor_id = executor_id;
        started_at = some (coalesce row.started_at now);
        updated_at = now;
      })
      rows,
  any (is_active_row id) rows,
)

-- `none` is the ValueError for a status that is not terminal.
unfoldable pub complete_processing_operation :
    List Operation → String → Status → Option String → ℕ → Option (List Operation × Bool)
unfolding update_where is_terminal
complete_processing_operation rows id status error_code now =
    if is_terminal status
    then some (
      update_where (is_active_row id)
          (λ row. record row {
            status = status;
            error_code = error_code;
            completed_at = some now;
            updated_at = now;
          })
          rows,
      any (is_active_row id) rows,
    )
    else none

unfoldable pub processing_operation_is_active : List Operation → String → Bool
processing_operation_is_active [] id = false
processing_operation_is_active (row ∷ rows) id =
    if row.operation_id == id then is_active row.status else processing_operation_is_active rows id

unfoldable pub mark_user_processing_operations_stale : List Operation → ℕ → ℕ → List Operation × ℕ
unfolding update_where is_stale
mark_user_processing_operations_stale rows uid now =
    let chosen = λ (row : Operation). row.uid == uid && not (is_stale row.status) in
    (
      update_where chosen (λ row. record row { status = stale; updated_at = now }) rows,
      length (filter chosen rows),
    )
