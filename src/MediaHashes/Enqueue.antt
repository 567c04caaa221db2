-- ===== src/MediaHashes/Enqueue.antt =====
-- The start of the runs: `enqueue_media_hash_backfill` of
-- backend/app/logic/workflows/media_hashes.py. The workflow engine is an argument; its state says
-- which workflows it knows, and with what status.
use wanderbound.Prelude.{
  ℕ, ◌≡◌, ◌≢◌, arith, String, Bool, false, ◌||◌, ◌==◌, string_eq, Option, none, some, List, [], ◌∷◌,
  if◌then◌else◌,
}
use wanderbound.MediaHashes.Targets.{MediaHashBackfillTarget}

-- The workflow of a user, an album, an upload and a revision, and the one that tries another again;
-- the texts of different ones differ.
pub data HashWorkflowId : Type 0 where
  media_hash_workflow_id : ℕ → String → ℕ → String → HashWorkflowId
  media_hash_retry_workflow_id : HashWorkflowId → HashWorkflowId

pub data Scheduled : Type 0 where
  retry_known : Scheduled
  retry_forked : Scheduled
  enqueued : Scheduled

unfoldable pub has_failed : Option String → Bool
has_failed none = false
has_failed (some status) = status == "ERROR" || status == "MAX_RECOVERY_ATTEMPTS_EXCEEDED"

module _ {State : Type 0} (get_workflow_status : State → HashWorkflowId → Option String)
    (enqueue_workflow : State → HashWorkflowId → State)
    (fork_workflow : State → HashWorkflowId → HashWorkflowId → State) where
  unfoldable pub enqueue_media_hash_backfill : State → HashWorkflowId → State × Scheduled
  unfolding has_failed
  enqueue_media_hash_backfill state workflow_id =
      let retry_workflow_id = media_hash_retry_workflow_id workflow_id in
      if has_failed (get_workflow_status state workflow_id)
      then elim (get_workflow_status state retry_workflow_id) [
        | some status ↦ (state, retry_known)
        | none ↦ (fork_workflow state workflow_id retry_workflow_id, retry_forked)
      ]
      else (enqueue_workflow state workflow_id, enqueued)

  -- An exception of one target does not stop the others; it leaves the engine as it was.
  unfoldable pub reconcile_missing_media_hash_backfills :
      (MediaHashBackfillTarget → Bool) → State → List MediaHashBackfillTarget → State
  unfolding enqueue_media_hash_backfill
  reconcile_missing_media_hash_backfills raises state [] = state
  reconcile_missing_media_hash_backfills raises state (target ∷ targets) =
      let next =
        (enqueue_media_hash_backfill state (
          media_hash_workflow_id target.album.0 target.album.1 target.upload_generation
            target.revision)).0 in
      reconcile_missing_media_hash_backfills raises (if raises target then state else next) targets

  -- a workflow that was known is known
  abbrev pub Remembers : State → State → Type 0
  Remembers state later =
      (id : HashWorkflowId)
      → get_workflow_status state id ≢ none
      → get_workflow_status later id ≢ none

  forked-unknown :
      (state : State) (id : HashWorkflowId)
      → (enqueue_media_hash_backfill state id).1 ≡ retry_forked
      → (get_workflow_status state (media_hash_retry_workflow_id id) ≡ none)
        × ((enqueue_media_hash_backfill state id).0
            ≡ fork_workflow state id (media_hash_retry_workflow_id id))
  unfolding enqueue_media_hash_backfill
  forked-unknown state id h = (ground (arith, h), ground (arith, h))

  -- Once a failed run has been forked, it is not forked again, where the engine knows a workflow that
  -- it has forked, and goes on knowing those that it knew.
  pub enqueue_media_hash_backfill_once :
      ((state : State) (id new : HashWorkflowId)
        → get_workflow_status (fork_workflow state id new) new ≢ none)
      → (state later : State) (id : HashWorkflowId)
      → (enqueue_media_hash_backfill state id).1 ≡ retry_forked
      → Remembers (enqueue_media_hash_backfill state id).0 later
      → (enqueue_media_hash_backfill later id).1 ≢ retry_forked
  enqueue_media_hash_backfill_once forked state later id h remembers again =
      let retry = media_hash_retry_workflow_id id in
      let known : get_workflow_status (enqueue_media_hash_backfill state id).0 retry ≢ none =
        rw (forked-unknown state id h).1 (forked state id retry) in
      remembers retry known (forked-unknown later id again).0
