-- ===== src/Operations/Workflow.antt =====
-- The end of a processing workflow: what `run_processing_workflow_payload` of
-- backend/app/logic/workflows/processing.py does with the operation once the events of the run are
-- recorded. Other requests may have changed the table meanwhile.
use wanderbound.Prelude.{
  ℕ, ◌≤◌, ◌≡◌, refl, sym, ◌∙◌, ap, arith, String, Bool, true, false, ◌==◌, string_eq, eq_refl,
  eq_comm, subst, nat_eq, Option, none, some, List, [], ◌∷◌, map, any, count, if◌then◌else◌,
  Bool-cases, inl, inr,
}
use text.Mathlib.TextEquality.{eq_iff}
use wanderbound.Operations.{
  Status, queued, running, succeeded, failed, cancelled, stale, Operation, is_active, is_terminal,
  is_active_row, update_where, complete_processing_operation,
}
use wanderbound.Operations.Lifecycle.{find_operation, find-update, some-injective, stage}

-- the status that the run calls for
unfoldable pub run_status : Status → Bool → Status
run_status succeeded _ = succeeded
run_status queued saw_error = if saw_error then failed else succeeded
run_status running saw_error = if saw_error then failed else succeeded
run_status failed saw_error = if saw_error then failed else succeeded
run_status cancelled saw_error = if saw_error then failed else succeeded
run_status stale saw_error = if saw_error then failed else succeeded

-- `operation.status` after the refresh that a completion ends with; a row stays in the table
unfoldable pub refreshed : Operation → List Operation → Status
unfolding find_operation
refreshed operation rows = elim (find_operation rows operation.operation_id) [
  | none ↦ operation.status
  | some row ↦ row.status
]

-- the table, and the status that is returned
unfoldable pub complete_run : List Operation → Operation → Status → ℕ → List Operation × Status
unfolding complete_processing_operation refreshed
complete_run rows operation status now =
    elim (complete_processing_operation rows operation.operation_id status none now) [
      | none ↦ (rows, operation.status)
      | some result ↦
          if result.1 then (result.0, status) else (result.0, refreshed operation result.0)
    ]

-- `none` is the error of a refresh whose row is gone.
unfoldable pub finish_workflow :
    List Operation → String → Bool → ℕ → Option (List Operation × Status)
unfolding run_status complete_run stage
finish_workflow rows id saw_error now = elim (find_operation rows id) [
  | none ↦ none
  | some operation ↦
      let status = run_status operation.status saw_error in
      if stage operation.status == stage status
      then some (rows, status)
      else some (complete_run rows operation status now)
]

find-id :
    (rows : List Operation) (id : String) (a : Operation)
    → find_operation rows id ≡ some a
    → a.operation_id ≡ id
unfolding find_operation
find-id [] id a h = absurd cc
find-id (row ∷ rows) id a h = elim (Bool-cases (row.operation_id == id)) [
  | inl here ↦
      subst (λ r. r.operation_id ≡ id) (some-injective (rw here at h))
        ((eq_iff row.operation_id id).0 here)
  | inr elsewhere ↦ find-id rows id a (rw elsewhere at h)
]

none_active :
    (rows : List Operation) (id : String)
    → count (map (λ row. row.operation_id) rows) id ≡ 0
    → any (is_active_row id) rows ≡ false
none_active [] id h = refl
none_active (row ∷ rows) id h = ground (arith, eq_comm row.operation_id id, none_active rows id)

any_active :
    (rows : List Operation) (id : String) (a : Operation)
    → count (map (λ row. row.operation_id) rows) id ≤ 1
    → find_operation rows id ≡ some a
    → any (is_active_row id) rows ≡ is_active a.status
unfolding find_operation
any_active [] id a once h = absurd cc
any_active (row ∷ rows) id a once h = elim (Bool-cases (row.operation_id == id)) [
  | inl here ↦ ground (
    arith,
    eq_comm row.operation_id id,
    none_active rows id,
    ap (λ (r : Operation). is_active r.status) (some-injective (rw here at h)),
  )
  | inr elsewhere ↦ ground (
    arith,
    eq_comm row.operation_id id,
    any_active rows id a (ground (arith, once)) (rw elsewhere at h),
  )
]

run_status-terminal : (s : Status) (saw_error : Bool) → is_terminal (run_status s saw_error) ≡ true
unfolding is_terminal run_status is_active
run_status-terminal queued false = refl
run_status-terminal queued true = refl
run_status-terminal running false = refl
run_status-terminal running true = refl
run_status-terminal succeeded saw_error = refl
run_status-terminal failed false = refl
run_status-terminal failed true = refl
run_status-terminal cancelled false = refl
run_status-terminal cancelled true = refl
run_status-terminal stale false = refl
run_status-terminal stale true = refl

run_status-same :
    (s : Status) (saw_error : Bool)
    → (stage s == stage (run_status s saw_error)) ≡ true
    → run_status s saw_error ≡ s
unfolding run_status stage
run_status-same queued false h = absurd cc
run_status-same queued true h = absurd cc
run_status-same running false h = absurd cc
run_status-same running true h = absurd cc
run_status-same succeeded saw_error h = refl
run_status-same failed false h = absurd cc
run_status-same failed true h = refl
run_status-same cancelled false h = absurd cc
run_status-same cancelled true h = absurd cc
run_status-same stale false h = absurd cc
run_status-same stale true h = absurd cc

complete_run-find_operation :
    (rows : List Operation) (a : Operation) (status : Status) (now : ℕ)
    → count (map (λ row. row.operation_id) rows) a.operation_id ≤ 1
    → find_operation rows a.operation_id ≡ some a
    → is_terminal status ≡ true
    → (after : List Operation) × (b : Operation) × (complete_run rows a status now
        ≡ (after, b.status))
      × (find_operation after a.operation_id ≡ some b)
unfolding complete_run complete_processing_operation refreshed
complete_run-find_operation rows a status now once h ended =
    let set : Operation → Operation = λ row. record row {
      status = status;
      error_code = none;
      completed_at = some now;
      updated_at = now;
    } in
    let after = update_where (is_active_row a.operation_id) set rows in
    let found =
      find-update (is_active_row a.operation_id) set (λ row. refl) rows a.operation_id a h in
    let active = any_active rows a.operation_id a once h in
    elim (Bool-cases (is_active a.status)) [
      | inl going ↦ (
        after,
        set a,
        rw (complete_run, complete_processing_operation, ended, active, going) refl,
        found ∙ rw (eq_refl a.operation_id, going) refl,
      )
      | inr over ↦
          let kept = found ∙ rw (eq_refl a.operation_id, over) refl in
          (
            after,
            a,
            rw (complete_run, complete_processing_operation, ended, active, over, refreshed, kept)
                refl,
            kept,
          )
    ]

-- The status that the workflow returns is the one that the operation has in the table, whatever
-- other requests have done to it: an operation that is in the table once is still there, and a run
-- always comes to an end.
pub finish_workflow-find_operation :
    (rows : List Operation) (id : String) (saw_error : Bool) (now : ℕ) (a : Operation)
    → count (map (λ row. row.operation_id) rows) id ≤ 1
    → find_operation rows id ≡ some a
    → (after : List Operation) × (b : Operation) × (finish_workflow rows id saw_error now
        ≡ some (after, b.status))
      × (find_operation after id ≡ some b)
unfolding finish_workflow complete_run
finish_workflow-find_operation rows id saw_error now a once h =
    let e = find-id rows id a h in
    let status = run_status a.status saw_error in
    elim (Bool-cases (stage a.status == stage status)) [
      | inl same ↦
          (rows, a, rw (finish_workflow, h, same, run_status-same a.status saw_error same) refl, h)
      | inr other ↦
          let (after, b, ended, found) =
            complete_run-find_operation rows a status now
              (subst (λ k. count (map (λ row. row.operation_id) rows) k ≤ 1) (sym e) once)
              (subst (λ k. find_operation rows k ≡ some a) (sym e) h)
              (run_status-terminal a.status saw_error) in
          (
            after,
            b,
            rw (finish_workflow, h, other) (ap some ended),
            subst (λ k. find_operation after k ≡ some b) e found,
          )
    ]
