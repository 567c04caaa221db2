-- ===== src/Tests/OperationRuns.antt =====
-- Operations of a few users: their statuses, their event rows, a run that is cut off twice, and a
-- client that follows it.
use wanderbound.Prelude.{ℕ, ◌+◌, ◌≡◌, refl, arith, List, [], ◌∷◌, true, false, String, some, none}
use wanderbound.Operations.{
  Operation, Status, queued, running, succeeded, failed, mark_processing_operation_running,
  complete_processing_operation, mark_user_processing_operations_stale,
}
use wanderbound.Operations.Lifecycle.{
  find_operation, Later, start, more, completed, made_stale, History-Later,
}
use wanderbound.Operations.Race.{complete_twice}
use wanderbound.Operations.Events.{EventRow, Store, append_processing_event, read_processing_events}
use wanderbound.Operations.Restart.{Recorded, persist_runs, persist_events-restart}
use wanderbound.Operations.Poll.{Turn, poll_persisted_operation, poll_persisted_operation-all}

abbrev operation : String → ℕ → Status → Operation
operation id uid status = record {
  operation_id = id;
  uid = uid;
  upload_generation = 1;
  workflow_id = id;
  status = status;
  started_by_executor_id = none;
  error_code = none;
  started_at = none;
  completed_at = none;
  created_at = 1;
  updated_at = 1;
}

abbrev table : List Operation
table = operation "x" 1 running ∷ operation "y" 2 queued ∷ []

abbrev ended : List Operation
ended =
    record (operation "x" 1 succeeded) { completed_at = some 5; updated_at = 5 }
    ∷ operation "y" 2 queued
    ∷ []

complete-run : complete_processing_operation table "x" succeeded none 5 ≡ some (ended, true)
unfolding complete_processing_operation
complete-run = refl

complete-refused : complete_processing_operation table "x" running none 5 ≡ none
unfolding complete_processing_operation
complete-refused = refl

complete_twice_example :
    (mark_processing_operation_running ended "x" (some "worker") 7 ≡ (ended, false))
    × (complete_processing_operation ended "x" failed (some "Timeout") 7 ≡ some (ended, false))
unfolding complete_processing_operation
complete_twice_example =
    complete_twice table ended "x" succeeded failed none (some "Timeout") (some "worker") 5 7 true
      complete-run refl

abbrev overtaken : List Operation
overtaken = (mark_user_processing_operations_stale table 1 6).0

History-Later_example :
    Later (mark_user_processing_operations_stale ended 1 6).0 "x" (operation "x" 1 running)
unfolding find_operation
History-Later_example =
    History-Later (λ id. id) "x" (operation "x" 1 running) refl
      (more (more start (completed "x" succeeded none 5 ended true complete-run)) (made_stale 1 6))

abbrev empty_store : Store ℕ
empty_store = record { operations = table; events = [] }

-- events stand for themselves, and a payload's type is a constant
abbrev plain : ℕ → String
plain _ = "phase"

append-run :
    (append_processing_event
      (λ e. e)
      plain
      (append_processing_event (λ e. e) plain empty_store "x" 40 2).0
      "x"
      41
      3).1.seq
    ≡ 1
unfolding append_processing_event
append-run = refl

abbrev events : List ℕ
events = 40 ∷ 41 ∷ 42 ∷ []

-- the second run comes to another event under number 1
abbrev runs : List (List ℕ × (ℕ → ℕ))
runs = (40 ∷ 41 ∷ [], λ k. k) ∷ (40 ∷ 45 ∷ 46 ∷ [], λ k. k + 10) ∷ (events, λ k. k + 20) ∷ []

persist_events-restart_example :
    read_processing_events (λ e. e) (persist_runs (λ e. e) plain "x" empty_store runs).events "x" 0
    ≡ 40 ∷ 41 ∷ 46 ∷ []
persist_events-restart_example =
    persist_events-restart (λ e. e) plain "x" (λ e. e) (λ e. refl) empty_store runs refl

abbrev row : ℕ → ℕ → EventRow ℕ
row seq payload = record {
  operation_id = "x";
  seq = seq;
  event_type = "phase";
  payload = payload;
  created_at = 0;
}

abbrev turn : List (EventRow ℕ) → Status → List (EventRow ℕ) → Turn ℕ
turn rows status rows_after = record { rows = rows; status = some status; rows_after = rows_after }

abbrev first_turn : Turn ℕ
first_turn = turn (row 0 40 ∷ []) running (row 0 40 ∷ [])

abbrev last_turn : Turn ℕ
last_turn = turn (row 0 40 ∷ row 1 41 ∷ []) succeeded (row 0 40 ∷ row 1 41 ∷ row 2 42 ∷ [])

one_there : Recorded (row 0 40 ∷ []) "x" events
one_there = record { numbered = (refl, tt); begins = refl }

two_there : Recorded (row 0 40 ∷ row 1 41 ∷ []) "x" events
two_there = record { numbered = (refl, (refl, tt)); begins = refl }

all_there : Recorded (row 0 40 ∷ row 1 41 ∷ row 2 42 ∷ []) "x" events
all_there = record { numbered = (refl, (refl, (refl, tt))); begins = refl }

poll_persisted_operation-all_example :
    poll_persisted_operation (λ e. e) (first_turn ∷ last_turn ∷ []) "x" 0 ≡ events
unfolding poll_persisted_operation
poll_persisted_operation-all_example =
    poll_persisted_operation-all (λ e. e) plain (λ e. e) (λ e. refl) "x" events (first_turn ∷ [])
      last_turn []
      (
        one_there,
        omega arith,
        one_there,
        omega arith,
        (two_there, omega arith, all_there, omega arith, tt),
      )
      refl refl refl
