-- ===== src/Tests/ImportRuns.antt =====
-- A selection that is overtaken by the end of the upload, and one that is not.
use wanderbound.Prelude.{ℕ, ◌≡◌, refl, true, Option, none, some, List, [], ◌∷◌}
use wanderbound.Imports.{
  UploadSession, UploadStatus, TripChoice, work_on, processing, awaiting_selection, select_by,
  delete_at,
}
use wanderbound.Imports.Steps.{done}
use wanderbound.Imports.Transitions.{
  Action, read, commit, abort, download, perform, perform_all, follows, fits, fits_unless_changed,
}
use wanderbound.Imports.Follows.{perform-follows}

abbrev two_trips : List TripChoice
two_trips = record { id = "a"; label = "Alps" } ∷ record { id = "b"; label = "Bali" } ∷ []

abbrev upload : UploadStatus → Option ℕ → UploadSession
upload status completed_at = record {
  upload_id = "u";
  owner = "local";
  object_key = "uploads/u.zip";
  size_bytes = 100;
  status = status;
  error_code = none;
  result = none;
  trip_choices = two_trips;
  expires_at = 90000;
  updated_at = 10;
  completed_at = completed_at;
}

-- The selection is read while the choice is awaited, and written after the upload is aborted.
race-run :
    perform_all
      (some (upload awaiting_selection none), [])
      (read (select_by "local" ("b" ∷ []) 40) ∷ abort 41 true ∷ commit 0 ∷ commit 0 ∷ [])
    ≡ (some (record (upload processing (some 41)) { updated_at = 40 }), [])
unfolding perform_all
race-run = refl

-- the selection that is not overtaken
perform-follows_example :
    (follows
        (upload awaiting_selection none)
        (perform (some (upload awaiting_selection none), work_on 40 ∷ []) (commit 0)).0
      ≡ true)
    × (fits_unless_changed
          (upload awaiting_selection none)
          (perform (some (upload awaiting_selection none), work_on 40 ∷ []) (commit 0))
        ≡ true)
unfolding fits
perform-follows_example =
    perform-follows (upload awaiting_selection none) (work_on 40 ∷ []) (commit 0) refl

abbrev late_actions : List Action
late_actions =
    read (select_by "local" ("b" ∷ []) 70)
    ∷ download 71 (done "source.zip")
    ∷ read (delete_at 700000)
    ∷ commit 0
    ∷ []
