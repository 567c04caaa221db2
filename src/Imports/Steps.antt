-- ===== src/Imports/Steps.antt =====
-- The steps of an import: the `DBOS.step` functions of backend/app/logic/workflows/uploads.py. A
-- step that writes at once what it reads gives the row that it leaves in the table with its outcome.
-- The two that end an upload delete its artifacts in between, and give the write that they still
-- have to make. What the archive, the disk and the object store answer are arguments. A step is one
-- attempt: the workflow engine may repeat a step.
use wanderbound.Prelude.{ℕ, String, Bool, Option, none, some, List, if◌then◌else◌}
use wanderbound.Imports.{
  UploadSession, UploadStatus, TripChoice, Write, succeed, end_with, awaiting_selection,
  is_processing, is_ongoing, is_status,
}

-- `cancelled` is `UploadWorkflowCancelledError`, `invalid_archive` `InvalidUploadArchiveError`,
-- and `raised` any other exception.
pub data StepOutcome {ℓ} (A : Type ℓ) : Type ℓ where
  returned : A → StepOutcome A
  cancelled : StepOutcome A
  invalid_archive : StepOutcome A
  raised : StepOutcome A

abbrev pub Step : Type 0 → Type 0
Step A = Option UploadSession × StepOutcome A

unfoldable pub current_upload : Option UploadSession → Option UploadSession
unfolding is_status
current_upload none = none
current_upload (some row) = if is_processing row.status then some row else none

-- the head that the steps share: the row, touched and committed, before the step's own work
unfoldable pub with_upload :
    {A : Type 0} → Option UploadSession → ℕ → (UploadSession → Step A) → Step A
unfolding current_upload
with_upload row now work = elim (current_upload row) [
  | none ↦ (row, cancelled)
  | some found ↦ work (record found { updated_at = now })
]

-- work on the archive outside the table, which an exception ends
pub data Work {ℓ} (A : Type ℓ) : Type ℓ where
  done : A → Work A
  bad_archive : Work A
  broken : Work A

unfoldable pub outcome_of : {A : Type 0} → Work A → StepOutcome A
outcome_of (done a) = returned a
outcome_of bad_archive = invalid_archive
outcome_of broken = raised

unfoldable pub download_upload : Option UploadSession → ℕ → Work String → Step String
unfolding with_upload outcome_of
download_upload row now downloaded =
    with_upload row now (λ found. (some found, outcome_of downloaded))

unfoldable pub inspect_upload :
    Option UploadSession → ℕ → Work (List TripChoice) → Step (List TripChoice)
unfolding with_upload
inspect_upload row now bad_archive = (row, invalid_archive)
inspect_upload row now broken = (row, raised)
inspect_upload row now (done choices) = with_upload row now (λ found.
    (some (record found { status = awaiting_selection; trip_choices = choices }), returned choices))

unfoldable pub extract_upload : Option UploadSession → ℕ → Work String → Step String
unfolding with_upload outcome_of
extract_upload row now extracted = with_upload row now (λ found. (some found, outcome_of extracted))

-- What `finalize_upload_session` comes to: another import of the user's is under way, an exception
-- before or after the result is committed, or the user that the result is for.
pub data Finalized : Type 0 where
  conflict : Finalized
  raised_before : Finalized
  raised_after : ℕ → Finalized
  finalized : ℕ → Finalized

unfoldable pub finalize_row : UploadSession → Finalized → Step (Option ℕ)
finalize_row row conflict = (some row, returned none)
finalize_row row raised_before = (some row, raised)
finalize_row row (raised_after user) = (some (record row { result = some user }), raised)
finalize_row row (finalized user) = (some (record row { result = some user }), returned (some user))

unfoldable pub finalize_upload : Option UploadSession → ℕ → Finalized → Step (Option ℕ)
unfolding with_upload finalize_row
finalize_upload row now outcome = with_upload row now (λ found. finalize_row found outcome)

-- `deleted` says whether the artifacts could be deleted.
unfoldable pub complete_row : UploadSession → ℕ → Bool → Option ℕ → Option Write × StepOutcome ℕ
complete_row row now deleted none = (none, cancelled)
complete_row row now deleted (some user) =
    if deleted then (some (succeed now), returned user) else (none, raised)

unfoldable pub complete_upload : Option UploadSession → ℕ → Bool → Option Write × StepOutcome ℕ
unfolding current_upload complete_row
complete_upload row now deleted = elim (current_upload row) [
  | none ↦ (none, cancelled)
  | some found ↦ complete_row found now deleted found.result
]

unfoldable pub terminate_upload :
    Option UploadSession
    → UploadStatus
    → Option String
    → ℕ
    → Bool
    → Option Write × StepOutcome {0} Unit
unfolding is_status
terminate_upload none terminal_status error_code now deleted = (none, returned tt)
terminate_upload (some row) terminal_status error_code now deleted =
    if is_ongoing row.status
    then if deleted
      then (some (end_with terminal_status error_code now), returned tt)
      else (none, raised)
    else (none, returned tt)
