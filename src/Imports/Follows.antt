-- ===== src/Imports/Follows.antt =====
-- Which status of an upload session follows which.
use wanderbound.Prelude.{
  ℕ, zero, suc, ◌≡◌, refl, sym, ap, ◌∙◌, Bool-cases, arith, String, Bool, true, false, not, ◌||◌,
  inl, inr, Option, none, some, Option-cases, List, [], ◌∷◌, all,
}
use wanderbound.Imports.{
  UploadSession, UploadStatus, Write, touch, work_on, give_up, succeed, end_with, remove,
  apply_write, succeeded, failed, aborted, is_status, Request, complete_parts_by, abort_by,
  select_by, expire_at, delete_at, serve,
}
use wanderbound.Operations.Lifecycle.{some-injective}
use wanderbound.Imports.Steps.{
  done, bad_archive, broken, conflict, raised_before, raised_after, finalized, download_upload,
  inspect_upload, extract_upload, finalize_upload, complete_upload, terminate_upload, with_upload,
  current_upload, finalize_row, complete_row,
}
use wanderbound.Imports.Transitions.{
  Action, read, complete, fail, abort, commit, download, inspect, extract, finalize, put, nth_write,
  without, perform, may_follow, has_end, follows, fits, fits_unless_changed, is_over,
}

pub all-without :
    (p : Write → Bool) (n : ℕ) (pending : List Write)
    → all p pending ≡ true
    → all p (without n pending) ≡ true
all-without p n [] h = refl
all-without p zero (write ∷ pending) h = ground (arith, h)
all-without p (suc n) (write ∷ pending) h = ground (arith, h, all-without p n pending)

pub all-nth_write :
    (p : Write → Bool) (n : ℕ) (pending : List Write) (write : Write)
    → all p pending ≡ true
    → nth_write n pending ≡ some write
    → p write ≡ true
all-nth_write p n [] write h k = absurd (ground (arith, k))
all-nth_write p zero (first ∷ pending) write h k = ap p (sym (some-injective k)) ∙ ground (arith, h)
all-nth_write p (suc n) (first ∷ pending) write h k =
    all-nth_write p n pending write (ground (arith, h)) k

pub all-put :
    (p : Write → Bool) (write : Option Write) (pending : List Write)
    → elim write [ none ↦ true | some w ↦ p w ] ≡ true
    → all p pending ≡ true
    → all p (put write pending) ≡ true
all-put p none pending h k = k
all-put p (some write) pending h k = ground (arith, h, k)

-- Whether a write fits depends on the status of the row and on its end.
fits_same :
    (row after : UploadSession) (write : Write)
    → is_status row.status after.status ≡ true
    → (not (has_end row) || has_end after) ≡ true
    → fits row write ≡ true
    → fits after write ≡ true
unfolding fits follows apply_write may_follow is_status
fits_same row after (touch now) h k l = ground (arith, h, l)
fits_same row after (work_on now) h k l = ground (arith, h, l)
fits_same row after (give_up now) h k l = ground (arith, h, l)
fits_same row after (succeed now) h k l = ground (arith, h, l)
fits_same row after (end_with status code now) h k l = ground (arith, h, l)
fits_same row after remove h k l = ground (arith, k, l)

all-fits_same :
    (row after : UploadSession) (pending : List Write)
    → is_status row.status after.status ≡ true
    → (not (has_end row) || has_end after) ≡ true
    → all (fits row) pending ≡ true
    → all (fits after) pending ≡ true
all-fits_same row after [] h k l = refl
all-fits_same row after (write ∷ pending) h k l = ground (
  arith,
  fits_same row after write h k (ground (arith, l)),
  all-fits_same row after pending h k (ground (arith, l)),
)

fits_unless_changed_same :
    (row : UploadSession) (after : Option UploadSession) (pending : List Write)
    → elim after [ none ↦ true | some found ↦ not (has_end row) || has_end found ] ≡ true
    → all (fits row) pending ≡ true
    → fits_unless_changed row (after, pending) ≡ true
unfolding fits_unless_changed
fits_unless_changed_same row none pending h k = refl
fits_unless_changed_same row (some after) pending h k =
    elim (Bool-cases (is_status row.status after.status)) [
      | inl same ↦ ground (arith, all-fits_same row after pending same h k)
      | inr changed ↦ ground (arith, changed)
    ]

may_follow_refl : (status : UploadStatus) → may_follow status status ≡ true
unfolding may_follow is_status
may_follow_refl status = ground arith

-- what is read of a row is a write that fits it
serve-fits :
    (row : UploadSession) (asked : Request)
    → elim (serve (some row) asked).0 [ none ↦ true | some write ↦ fits row write ] ≡ true
unfolding serve fits follows apply_write may_follow is_status has_end
serve-fits row (complete_parts_by owner key now admitted stored) = ground arith
serve-fits row (abort_by owner key now store_aborts) = ground arith
serve-fits row (select_by owner selected now) = ground arith
serve-fits row (expire_at now store_aborts) = ground arith
serve-fits row (delete_at now) = ground arith

complete-fits :
    (row : UploadSession) (now : ℕ) (deleted : Bool)
    → elim (complete_upload (some row) now deleted).0 [ none ↦ true | some write ↦ fits row write ]
      ≡ true
unfolding complete_upload complete_row current_upload fits follows apply_write may_follow is_status
complete-fits row now deleted = ground arith

terminate-fits :
    (row : UploadSession) (status : UploadStatus) (code : Option String) (now : ℕ) (deleted : Bool)
    → is_over status ≡ true
    → is_status status succeeded ≡ false
    → elim (terminate_upload (some row) status code now deleted).0 [
      | none ↦ true
      | some write ↦ fits row write
    ]
      ≡ true
unfolding terminate_upload fits follows apply_write may_follow is_status is_over
terminate-fits row status code now deleted h k = ground (arith, h, k)

read-fits :
    (row : UploadSession) (write : Option Write) (pending : List Write)
    → elim write [ none ↦ true | some w ↦ fits row w ] ≡ true
    → all (fits row) pending ≡ true
    → (follows row (some row) ≡ true)
      × (fits_unless_changed row (some row, put write pending) ≡ true)
unfolding fits_unless_changed follows
read-fits row write pending h k =
    (may_follow_refl row.status, ground (arith, all-put (fits row) write pending h k))

apply_write-ended :
    (row : UploadSession) (write : Write)
    → elim (apply_write (some row) write) [
      | none ↦ true
      | some found ↦ not (has_end row) || has_end found
    ]
      ≡ true
unfolding apply_write has_end
apply_write-ended row (touch now) = ground arith
apply_write-ended row (work_on now) = ground arith
apply_write-ended row (give_up now) = ground arith
apply_write-ended row (succeed now) = ground arith
apply_write-ended row (end_with status code now) = ground arith
apply_write-ended row remove = refl

commit-follows :
    (row : UploadSession) (write : Write) (pending : List Write)
    → fits row write ≡ true
    → all (fits row) pending ≡ true
    → (follows row (apply_write (some row) write) ≡ true)
      × (fits_unless_changed row (apply_write (some row) write, pending) ≡ true)
unfolding fits
commit-follows row write pending h k = (
  h,
  fits_unless_changed_same row (apply_write (some row) write) pending (apply_write-ended row write)
      k,
)

step-follows :
    (row : UploadSession) (after : Option UploadSession) (pending : List Write)
    → follows row after ≡ true
    → elim after [ none ↦ true | some found ↦ not (has_end row) || has_end found ] ≡ true
    → all (fits row) pending ≡ true
    → (follows row after ≡ true) × (fits_unless_changed row (after, pending) ≡ true)
step-follows row after pending h k l = (h, fits_unless_changed_same row after pending k l)

-- When each write in flight is one that the state machine allows, an action changes the status of
-- an upload only as the state machine allows: to being processed or aborted while its parts are
-- sent; on, to the choice, to its success or to a failure while it is processed; back to work or to
-- a failure while a choice is awaited; and never again once it is over. It removes the row only when
-- the time of its end is stored. Afterwards each write in flight, a new one included, is again one
-- that the state machine allows, unless the status has changed or the row is gone.
pub perform-follows :
    (row : UploadSession) (pending : List Write) (action : Action)
    → all (fits row) pending ≡ true
    → (follows row (perform (some row, pending) action).0 ≡ true)
      × (fits_unless_changed row (perform (some row, pending) action) ≡ true)
unfolding perform follows may_follow download_upload inspect_upload extract_upload finalize_upload
    with_upload current_upload finalize_row is_status is_over has_end
perform-follows row pending (read asked) h =
    read-fits row (serve (some row) asked).0 pending (serve-fits row asked) h
perform-follows row pending (complete now deleted) h =
    read-fits row (complete_upload (some row) now deleted).0 pending (complete-fits row now deleted)
      h
perform-follows row pending (fail code now deleted) h =
    read-fits row (terminate_upload (some row) failed (some code) now deleted).0 pending
      (terminate-fits row failed (some code) now deleted refl refl) h
perform-follows row pending (abort now deleted) h =
    read-fits row (terminate_upload (some row) aborted none now deleted).0 pending
      (terminate-fits row aborted none now deleted refl refl) h
perform-follows row pending (commit n) h = elim (Option-cases (nth_write n pending)) [
  | inl nothing ↦ rw (perform, nothing) (read-fits row none pending refl h)
  | inr (write, e) ↦
      rw (perform, e)
        (commit-follows row write (without n pending) (all-nth_write (fits row) n pending write h e)
          (all-without (fits row) n pending h))
]
perform-follows row pending (download now work) h =
    step-follows row (download_upload (some row) now work).0 pending (ground arith) (ground arith) h
perform-follows row pending (inspect now (done choices)) h =
    step-follows row (inspect_upload (some row) now (done choices)).0 pending (ground arith)
      (ground arith) h
perform-follows row pending (inspect now bad_archive) h =
    step-follows row (some row) pending (ground arith) (ground arith) h
perform-follows row pending (inspect now broken) h =
    step-follows row (some row) pending (ground arith) (ground arith) h
perform-follows row pending (extract now work) h =
    step-follows row (extract_upload (some row) now work).0 pending (ground arith) (ground arith) h
perform-follows row pending (finalize now conflict) h =
    step-follows row (finalize_upload (some row) now conflict).0 pending (ground arith)
      (ground arith) h
perform-follows row pending (finalize now raised_before) h =
    step-follows row (finalize_upload (some row) now raised_before).0 pending (ground arith)
      (ground arith) h
perform-follows row pending (finalize now (raised_after user)) h =
    step-follows row (finalize_upload (some row) now (raised_after user)).0 pending (ground arith)
      (ground arith) h
perform-follows row pending (finalize now (finalized user)) h =
    step-follows row (finalize_upload (some row) now (finalized user)).0 pending (ground arith)
      (ground arith) h
