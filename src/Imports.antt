-- ===== src/Imports.antt =====
-- The upload session that an archive is imported through: its row of `UploadSession`
-- (backend/app/models/processing.py), and the requests that change it: those of
-- backend/app/api/v1/routes/uploads.py, and the periodic cleanup of
-- backend/app/logic/uploads/cleanup.py. A request reads the row, awaits the object store or the
-- database, and then writes columns of the row under its key, whatever the row has become by then.
-- So what a request comes to is the write that it still has to make, and `apply_write` makes it.
-- Times are seconds. What the object store answers, and the owner that a request is resolved to,
-- are arguments.
pub mod Steps
pub mod Transitions
pub mod Follows
pub mod Over
use wanderbound.Prelude.{
  ℕ, ◌+◌, String, Bool, true, false, not, ◌&&◌, ◌||◌, ◌==◌, string_eq, nat_eq, Option, none, some,
  List, [], ◌∷◌, map, all, contains, leb, ltb, if◌then◌else◌,
}

pub data UploadStatus : Type 0 where
  uploading : UploadStatus
  processing : UploadStatus
  awaiting_selection : UploadStatus
  succeeded : UploadStatus
  failed : UploadStatus
  aborted : UploadStatus

unfoldable pub status_number : UploadStatus → ℕ
status_number uploading = 0
status_number processing = 1
status_number awaiting_selection = 2
status_number succeeded = 3
status_number failed = 4
status_number aborted = 5

unfoldable pub is_status : UploadStatus → UploadStatus → Bool
unfolding status_number
is_status a b = status_number a == status_number b

abbrev pub is_uploading : UploadStatus → Bool
is_uploading status = is_status status uploading

abbrev pub is_processing : UploadStatus → Bool
is_processing status = is_status status processing

-- `status in ("processing", "awaiting_selection")`
abbrev pub is_ongoing : UploadStatus → Bool
is_ongoing status = is_status status processing || is_status status awaiting_selection

pub record TripChoice : Type 0 where
  pub id : String
  pub label : String

-- of the result, the id of its user
pub record UploadSession : Type 0 where
  pub upload_id : String
  pub owner : String
  pub object_key : String
  pub size_bytes : ℕ
  pub status : UploadStatus
  pub error_code : Option String
  pub result : Option ℕ
  pub trip_choices : List TripChoice
  pub expires_at : ℕ
  pub updated_at : ℕ
  pub completed_at : Option ℕ

-- The columns that a session changes, which are all that its commit writes: `touch` writes the time
-- only. The others write a status, too, and the time of the end where there is one.
pub data Write : Type 0 where
  touch : ℕ → Write
  work_on : ℕ → Write
  give_up : ℕ → Write
  succeed : ℕ → Write
  end_with : UploadStatus → Option String → ℕ → Write
  remove : Write

-- A row that is gone is not written.
unfoldable pub apply_write : Option UploadSession → Write → Option UploadSession
apply_write none write = none
apply_write (some row) (touch now) = some (record row { updated_at = now })
apply_write (some row) (work_on now) = some (record row { status = processing; updated_at = now })
apply_write (some row) (give_up now) =
    some (record row { status = aborted; completed_at = some now; updated_at = now })
apply_write (some row) (succeed now) =
    some (record row { status = succeeded; completed_at = some now; updated_at = now })
apply_write (some row) (end_with terminal_status error_code now) = some (record row {
  status = terminal_status;
  error_code = error_code;
  completed_at = some now;
  updated_at = now;
})
apply_write (some row) remove = none

-- the write that is to be made, and the code of the error that is answered
abbrev pub Answer : Type 0
Answer = Option Write × Option String

unfoldable pub ensure_uploading : UploadSession → ℕ → Option String
unfolding is_status
ensure_uploading row now =
    if leb row.expires_at now
    then some "upload_expired"
    else if is_uploading row.status
    then none
    else some "upload_not_active"

-- `_owned_upload`, and what is done with the row that it finds
unfoldable pub owned_upload : Option UploadSession → String → (UploadSession → Answer) → Answer
owned_upload none owner handler = (none, some "upload_not_found")
owned_upload (some row) owner handler =
    if row.owner == owner then handler row else (none, some "upload_not_found")

unfoldable pub require_key : UploadSession → String → Bool
require_key row key = key == row.object_key

unfoldable pub accept_parts : UploadSession → ℕ → Bool → Option ℕ → Answer
accept_parts row now false stored = (none, some "upload_capacity_busy")
accept_parts row now true none = (none, some "upload_store_unavailable")
accept_parts row now true (some size) =
    if size == row.size_bytes
    then (some (work_on now), none)
    else (none, some "upload_size_mismatch")

-- `complete_upload` of the routes. `stored` is the size of the object that the store has put
-- together, `none` for an error of the store.
unfoldable pub complete_parts : UploadSession → String → ℕ → Bool → Option ℕ → Answer
unfolding is_status require_key ensure_uploading accept_parts
complete_parts row key now admitted stored =
    if require_key row key
    then if is_processing row.status then (none, none) else elim (ensure_uploading row now) [
      | some code ↦ (none, some code)
      | none ↦ accept_parts row now admitted stored
    ]
    else (none, some "upload_not_found")

unfoldable pub abort_upload : UploadSession → String → ℕ → Bool → Answer
unfolding require_key ensure_uploading
abort_upload row key now store_aborts =
    if require_key row key
    then elim (ensure_uploading row now) [
      | some code ↦ (none, some code)
      | none ↦
          if store_aborts
          then (some (give_up now), none)
          else (none, some "upload_store_unavailable")
    ]
    else (none, some "upload_not_found")

-- `len(selected) == len(set(selected))`
unfoldable pub is_set : List String → Bool
is_set [] = true
is_set (id ∷ ids) = not (contains ids id) && is_set ids

unfoldable pub is_selection : List TripChoice → List String → Bool
unfolding is_set
is_selection choices [] = false
is_selection choices (id ∷ ids) =
    is_set (id ∷ ids)
    && all (λ selected. contains (map (λ (choice : TripChoice). choice.id) choices) selected)
        (id ∷ ids)

-- A selection has at least one trip (`TripSelectionRequest`). The status of a row that was read at
-- work is not changed, so that it is not written either.
unfoldable pub select_upload_trips : UploadSession → List String → ℕ → Answer
unfolding is_status is_selection
select_upload_trips row selected now =
    if is_ongoing row.status
    then if is_selection row.trip_choices selected
      then (some (if is_processing row.status then touch now else work_on now), none)
      else (none, some "upload_invalid_selection")
    else (none, some "upload_not_active")

-- the two loops of `cleanup_upload_sessions`, for one row
unfoldable pub expire : UploadSession → ℕ → Bool → Option Write
unfolding is_status
expire row now store_aborts =
    if is_uploading row.status && leb row.expires_at now && store_aborts
    then some (give_up now)
    else none

-- `completed_at < current - timedelta(days=7)`, which a row without a time does not meet
unfoldable pub is_old : UploadSession → ℕ → Bool
is_old row now = elim row.completed_at [ none ↦ false | some at ↦ ltb (at + 604800) now ]

unfoldable pub delete_old : UploadSession → ℕ → Option Write
unfolding is_old
delete_old row now = if is_old row now then some remove else none

pub data Request : Type 0 where
  complete_parts_by : String → String → ℕ → Bool → Option ℕ → Request
  abort_by : String → String → ℕ → Bool → Request
  select_by : String → List String → ℕ → Request
  expire_at : ℕ → Bool → Request
  delete_at : ℕ → Request

-- what a request makes of the row that it reads
unfoldable pub serve : Option UploadSession → Request → Answer
unfolding owned_upload complete_parts abort_upload select_upload_trips expire delete_old
serve row (complete_parts_by owner key now admitted stored) =
    owned_upload row owner (λ found. complete_parts found key now admitted stored)
serve row (abort_by owner key now store_aborts) =
    owned_upload row owner (λ found. abort_upload found key now store_aborts)
serve row (select_by owner selected now) =
    owned_upload row owner (λ found. select_upload_trips found selected now)
serve none (expire_at now store_aborts) = (none, none)
serve (some row) (expire_at now store_aborts) = (expire row now store_aborts, none)
serve none (delete_at now) = (none, none)
serve (some row) (delete_at now) = (delete_old row now, none)
