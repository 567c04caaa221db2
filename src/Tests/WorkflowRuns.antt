-- ===== src/Tests/WorkflowRuns.antt =====
-- A workflow that ends after a new upload has made its operation stale, and one that ends as usual.
use wanderbound.Prelude.{◌≡◌, refl, String, true, false, some, none, List, [], ◌∷◌}
use wanderbound.Operations.{Operation, Status, queued, running, failed, stale}
use wanderbound.Operations.Workflow.{finish_workflow}

abbrev operation : String → Status → Operation
operation id status = record {
  operation_id = id;
  uid = 1;
  upload_generation = 1;
  workflow_id = id;
  status = status;
  started_by_executor_id = none;
  error_code = none;
  started_at = none;
  completed_at = none;
  created_at = 1;
  updated_at = 1;
}

abbrev table : Status → List Operation
table status = operation "x" status ∷ operation "y" queued ∷ []

finish-run :
    finish_workflow (table running) "x" true 9
    ≡ some (
      record (operation "x" failed) { completed_at = some 9; updated_at = 9 }
          ∷ operation "y" queued
          ∷ [],
      failed,
    )
unfolding finish_workflow
finish-run = refl

finish-stale : finish_workflow (table stale) "x" false 9 ≡ some (table stale, stale)
unfolding finish_workflow
finish-stale = refl
