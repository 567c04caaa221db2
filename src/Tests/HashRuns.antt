-- ===== src/Tests/HashRuns.antt =====
-- An album of two photos and a video, of which one photo has its hashes, and the runs for it.
use wanderbound.Prelude.{
  ℕ, ◌+◌, ◌≡◌, ◌≢◌, refl, arith, Bool, true, false, not, String, Option, none, some, List, [], ◌∷◌,
  map, all, count,
}
use wanderbound.MediaHashes.{
  FileIdentity, AlbumMedia, Files, World, discover_candidates, backfill_media_hashes, is_missing,
  wants_hash,
}
use wanderbound.MediaHashes.Counted.{total, backfill_media_hashes-total}
use wanderbound.MediaHashes.Kept.{Updated, asked_hashes, backfill_media_hashes-Updated}
use wanderbound.MediaHashes.Quiet.{all_hashed}
use wanderbound.MediaHashes.Finished.{backfill_media_hashes_complete}
use wanderbound.MediaHashes.Targets.{
  MediaHashBackfillTarget, album_eq, is_photo_of, missing_media_hash_backfill_targets,
}
use wanderbound.MediaHashes.Listed.{count-missing_media_hash_backfill_targets}
use wanderbound.MediaHashes.Enqueue.{
  HashWorkflowId, media_hash_workflow_id, media_hash_retry_workflow_id, retry_forked,
  enqueue_media_hash_backfill, enqueue_media_hash_backfill_once,
}

abbrev row : String → String → Option (List String) → AlbumMedia
row name kind hashes = record {
  uid = 1;
  aid = "trip";
  name = name;
  kind = kind;
  created_at = 5;
  updated_at = 6;
  byte_size = 100;
  perceptual_hashes = hashes;
}

abbrev table : List AlbumMedia
table =
    row "a.jpg" "photo" none
    ∷ row "b.jpg" "photo" (some ("ff" ∷ []))
    ∷ row "c.mp4" "video" none
    ∷ []

abbrev file : FileIdentity
file = record { device = 1; inode = 2; size = 100; modified_ns = 3 }

abbrev files : Files
files name = some file

abbrev world : World
world = record {
  files = λ moment. files;
  meanwhile = λ moment rows. rows;
  compute = λ names name. some ("0f" ∷ []);
}

every : (names : List String) → all (λ name. not (is_missing (some ("0f" ∷ [])))) names ≡ true
unfolding is_missing
every [] = refl
every (name ∷ names) = every names

all_some :
    (names : List String) → all (λ name. not (is_missing (world.compute names name))) names ≡ true
all_some names = every names

counted :
    total (backfill_media_hashes 1 "trip" world table).1
      + (discover_candidates 1 "trip" files table).1
    ≡ 1
unfolding wants_hash is_missing
counted = backfill_media_hashes-total 1 "trip" world table

backfill_media_hashes_complete_example :
    ((backfill_media_hashes 1 "trip" world table).1 ≡ all_hashed 1)
    × ((discover_candidates 1 "trip" files (backfill_media_hashes 1 "trip" world table).0).0 ≡ [])
unfolding discover_candidates
backfill_media_hashes_complete_example =
    backfill_media_hashes_complete 1 "trip" files world table (λ n. refl, λ n rows. refl, all_some)
      refl

backfill_media_hashes-Updated_example :
    Updated 1 "trip"
      (asked_hashes 1 "trip" world table)
      table
      (backfill_media_hashes 1 "trip" world table).0
backfill_media_hashes-Updated_example =
    backfill_media_hashes-Updated 1 "trip" world table (λ n rows. refl)

abbrev digest : List (String × ℕ × ℕ) → String
digest rows = "d"

abbrev text_leb : String → String → Bool
text_leb a b = true

-- two photos of the album have no hashes
abbrev lacking : List AlbumMedia
lacking = row "d.jpg" "photo" none ∷ table

count-missing_media_hash_backfill_targets_example :
    count
      (map
        (λ (t : MediaHashBackfillTarget). t.album)
        (missing_media_hash_backfill_targets digest text_leb lacking []))
      (1, "trip")
    ≡ 1
unfolding is_photo_of is_missing
count-missing_media_hash_backfill_targets_example =
    count-missing_media_hash_backfill_targets digest text_leb lacking [] (1, "trip")

-- an engine in which each run has failed, and each retry is known once any has been forked
abbrev status : Bool → HashWorkflowId → Option String
status forked (media_hash_workflow_id uid aid upload_generation revision) = some "ERROR"
status false (media_hash_retry_workflow_id id) = none
status true (media_hash_retry_workflow_id id) = some "PENDING"

abbrev enqueue : Bool → HashWorkflowId → Bool
enqueue state id = state

abbrev fork : Bool → HashWorkflowId → HashWorkflowId → Bool
fork state id new = true

status-fork : (state : Bool) (id new : HashWorkflowId) → status (fork state id new) new ≢ none
status-fork state id (media_hash_workflow_id uid aid upload_generation revision) h =
    ground (arith, h)
status-fork state id (media_hash_retry_workflow_id new) h = ground (arith, h)

enqueue_media_hash_backfill_once_example :
    (enqueue_media_hash_backfill status enqueue fork true (media_hash_workflow_id 1 "trip" 0 "d")).1
    ≢ retry_forked
unfolding enqueue_media_hash_backfill
enqueue_media_hash_backfill_once_example =
    enqueue_media_hash_backfill_once status enqueue fork status-fork false true
      (media_hash_workflow_id 1 "trip" 0 "d") refl (λ id known. known)
