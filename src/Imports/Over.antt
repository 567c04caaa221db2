-- ===== src/Imports/Over.antt =====
-- An upload session that is over, and the inspection that is run again.
use wanderbound.Prelude.{ℕ, ◌≡◌, refl, Bool, true, false, ◌⊎◌, none, some, List, all}
use wanderbound.Imports.{
  UploadSession, TripChoice, Write, touch, work_on, give_up, succeed, end_with, remove, processing,
  awaiting_selection, is_status,
}
use wanderbound.Imports.Steps.{
  returned, cancelled, done, inspect_upload, with_upload, current_upload,
}
use wanderbound.Imports.Transitions.{State}

abbrev pub is_remove : Write → Bool
is_remove remove = true
is_remove (touch now) = false
is_remove (work_on now) = false
is_remove (give_up now) = false
is_remove (succeed now) = false
is_remove (end_with status code now) = false

-- The row as it is, or none, with removals in flight.
abbrev Rests : UploadSession → State → Type 0
Rests row state = ((state.0 ≡ some row) × (all is_remove state.1 ≡ true)) ⊎ (state.0 ≡ none)

-- The inspection of an archive that is run again after its choices are committed, as a repeated
-- step is, cancels the import: the upload then awaits a selection that nobody receives.
pub inspect-inspect :
    (row : UploadSession) (now later : ℕ) (choices : List TripChoice) (work : List TripChoice)
    → is_status row.status processing ≡ true
    → (after : UploadSession) × (inspect_upload (some row) now (done choices)
        ≡ (some after, returned choices))
      × (inspect_upload (some after) later (done work) ≡ (some after, cancelled))
      × (after.status ≡ awaiting_selection)
unfolding inspect_upload with_upload current_upload is_status
inspect-inspect row now later choices work h = (
  record row { updated_at = now; status = awaiting_selection; trip_choices = choices },
  rw (inspect_upload, with_upload, current_upload, h) refl,
  refl,
  refl,
)
