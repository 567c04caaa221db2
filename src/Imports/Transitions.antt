-- ===== src/Imports/Transitions.antt =====
-- The life of an upload session: which status follows which, whatever requests and steps of the
-- workflow are run in whatever order, repeated ones included. A request, and a step that ends the
-- upload, reads the row in one action and writes it in a later one, with any others in between.
use wanderbound.Prelude.{
  ℕ, zero, suc, String, Bool, true, false, not, ◌&&◌, ◌||◌, Option, none, some, List, [], ◌∷◌, all,
}
use wanderbound.Imports.{
  UploadSession, UploadStatus, TripChoice, Write, apply_write, processing, succeeded, failed,
  aborted, is_status, is_ongoing, is_uploading, Request, serve,
}
use wanderbound.Imports.Steps.{
  Work, Finalized, download_upload, inspect_upload, extract_upload, finalize_upload,
  complete_upload, terminate_upload,
}

-- the row, and the writes that are still to be made, the latest read first
abbrev pub State : Type 0
State = Option UploadSession × List Write

-- A request, or a step that ends the upload, reads; a write in flight is made; or a step is run.
pub data Action : Type 0 where
  read : Request → Action
  complete : ℕ → Bool → Action
  fail : String → ℕ → Bool → Action
  abort : ℕ → Bool → Action
  commit : ℕ → Action
  download : ℕ → Work String → Action
  inspect : ℕ → Work (List TripChoice) → Action
  extract : ℕ → Work String → Action
  finalize : ℕ → Finalized → Action

abbrev pub put : Option Write → List Write → List Write
put none pending = pending
put (some write) pending = write ∷ pending

abbrev pub nth_write : ℕ → List Write → Option Write
nth_write n [] = none
nth_write zero (write ∷ pending) = some write
nth_write (suc n) (write ∷ pending) = nth_write n pending

abbrev pub without : ℕ → List Write → List Write
without n [] = []
without zero (write ∷ pending) = pending
without (suc n) (write ∷ pending) = write ∷ without n pending

unfoldable pub perform : State → Action → State
unfolding serve apply_write download_upload inspect_upload extract_upload finalize_upload
    complete_upload terminate_upload
perform (row, pending) (read asked) = (row, put (serve row asked).0 pending)
perform (row, pending) (complete now deleted) =
    (row, put (complete_upload row now deleted).0 pending)
perform (row, pending) (fail code now deleted) =
    (row, put (terminate_upload row failed (some code) now deleted).0 pending)
perform (row, pending) (abort now deleted) =
    (row, put (terminate_upload row aborted none now deleted).0 pending)
perform (row, pending) (commit n) = elim (nth_write n pending) [
  | none ↦ (row, pending)
  | some write ↦ (apply_write row write, without n pending)
]
perform (row, pending) (download now work) = ((download_upload row now work).0, pending)
perform (row, pending) (inspect now work) = ((inspect_upload row now work).0, pending)
perform (row, pending) (extract now work) = ((extract_upload row now work).0, pending)
perform (row, pending) (finalize now outcome) = ((finalize_upload row now outcome).0, pending)

unfoldable pub perform_all : State → List Action → State
unfolding perform
perform_all state [] = state
perform_all state (action ∷ actions) = perform_all (perform state action) actions

-- the state machine: the statuses that may follow a status
unfoldable pub may_follow : UploadStatus → UploadStatus → Bool
unfolding is_status
may_follow before after =
    is_status before after
    || is_uploading before && (is_status after processing || is_status after aborted)
    || is_ongoing before
      && not (is_uploading after)
      && (is_status before processing || not (is_status after succeeded))

unfoldable pub has_end : UploadSession → Bool
has_end row = elim row.completed_at [ none ↦ false | some at ↦ true ]

unfoldable pub follows : UploadSession → Option UploadSession → Bool
unfolding may_follow has_end
follows row none = has_end row
follows row (some after) = may_follow row.status after.status

-- a write that the state machine allows on this row
unfoldable pub fits : UploadSession → Write → Bool
unfolding follows apply_write
fits row write = follows row (apply_write (some row) write)

-- The writes in flight fit the row, unless it has another status or is gone.
unfoldable pub fits_unless_changed : UploadSession → State → Bool
unfolding is_status fits
fits_unless_changed row (none, pending) = true
fits_unless_changed row (some after, pending) =
    not (is_status row.status after.status) || all (fits after) pending

unfoldable pub is_over : UploadStatus → Bool
unfolding is_status
is_over status = not (is_uploading status) && not (is_ongoing status)
