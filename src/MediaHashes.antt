-- ===== src/MediaHashes.antt =====
-- The perceptual hashes that are computed for the photos of an album after its upload:
-- backend/app/logic/workflows/media_hashes.py. The files are seen by their identities, `none` where
-- the call of the file system fails, and hashes are computed by an argument. Times are numbers.
pub mod Counted
pub mod Enqueue
pub mod Targets
pub mod Listed
pub mod Kept
pub mod Finished
pub mod Quiet
use wanderbound.Prelude.{
  ℕ, zero, suc, ◌+◌, ◌-◌, String, Bool, true, false, not, ◌&&◌, ◌||◌, ◌==◌, string_eq, nat_eq,
  Option, none, some, List, [], ◌∷◌, ◌++◌, map, filter, any, length, if◌then◌else◌,
}
use wanderbound.Layout.{batched}

pub record FileIdentity : Type 0 where
  pub device : ℕ
  pub inode : ℕ
  pub size : ℕ
  pub modified_ns : ℕ

pub record MediaHashCandidate : Type 0 where
  pub name : String
  pub created_at : ℕ
  pub updated_at : ℕ
  pub byte_size : ℕ
  pub file : FileIdentity

pub record HashBackfillStats : Type 0 where
  pub hashed : ℕ
  pub already_completed : ℕ
  pub stale : ℕ
  pub failed : ℕ

-- the columns of `AlbumMedia` that are read or written
pub record AlbumMedia : Type 0 where
  pub uid : ℕ
  pub aid : String
  pub name : String
  pub kind : String
  pub created_at : ℕ
  pub updated_at : ℕ
  pub byte_size : ℕ
  pub perceptual_hashes : Option (List String)

abbrev pub Files : Type 0
Files = String → Option FileIdentity

abbrev pub HashesByName : Type 0
HashesByName = String → Option (List String)

abbrev pub hash_batch_size : ℕ
hash_batch_size = 32

abbrev pub no_stats : HashBackfillStats
no_stats = record { hashed = 0; already_completed = 0; stale = 0; failed = 0 }

unfoldable pub add_stats : HashBackfillStats → HashBackfillStats → HashBackfillStats
add_stats a b = record {
  hashed = a.hashed + b.hashed;
  already_completed = a.already_completed + b.already_completed;
  stale = a.stale + b.stale;
  failed = a.failed + b.failed;
}

unfoldable pub is_missing : Option (List String) → Bool
is_missing none = true
is_missing (some hashes) = false

unfoldable pub same_identity : FileIdentity → FileIdentity → Bool
same_identity a b =
    a.device == b.device && a.inode == b.inode && a.size == b.size && a.modified_ns == b.modified_ns

-- `_identity_or_none(…) == candidate.file`
unfoldable pub is_unchanged : Files → MediaHashCandidate → Bool
unfolding same_identity
is_unchanged files candidate = elim (files candidate.name) [
  | none ↦ false
  | some file ↦ same_identity file candidate.file
]

-- The rows that are hashed. The rows of an album stand in the order of their names.
unfoldable pub wants_hash : ℕ → String → AlbumMedia → Bool
unfolding is_missing
wants_hash uid aid row =
    row.uid == uid && row.aid == aid && is_missing row.perceptual_hashes && row.kind == "photo"

unfoldable pub candidate_of : AlbumMedia → FileIdentity → MediaHashCandidate
candidate_of row file = record {
  name = row.name;
  created_at = row.created_at;
  updated_at = row.updated_at;
  byte_size = row.byte_size;
  file = file;
}

-- the candidates, and the number of the excluded rows
unfoldable pub snapshot_candidates : Files → List AlbumMedia → List MediaHashCandidate × ℕ
unfolding candidate_of
snapshot_candidates files [] = ([], 0)
snapshot_candidates files (row ∷ rows) =
    let rest = snapshot_candidates files rows in
    elim (files row.name) [
      | none ↦ (rest.0, suc rest.1)
      | some file ↦
          if file.size == row.byte_size
          then (candidate_of row file ∷ rest.0, rest.1)
          else (rest.0, suc rest.1)
    ]

unfoldable pub discover_candidates :
    ℕ → String → Files → List AlbumMedia → List MediaHashCandidate × ℕ
unfolding snapshot_candidates wants_hash
discover_candidates uid aid files table =
    snapshot_candidates files (filter (wants_hash uid aid) table)

-- the row that the candidate was read from, as it was read
unfoldable pub is_as_read : ℕ → String → MediaHashCandidate → AlbumMedia → Bool
unfolding is_missing
is_as_read uid aid candidate row =
    row.uid == uid
    && row.aid == aid
    && row.name == candidate.name
    && is_missing row.perceptual_hashes
    && row.created_at == candidate.created_at
    && row.updated_at == candidate.updated_at
    && row.byte_size == candidate.byte_size

unfoldable pub write_hashes :
    ℕ → String → MediaHashCandidate → List String → AlbumMedia → AlbumMedia
unfolding is_as_read
write_hashes uid aid candidate hashes row =
    if is_as_read uid aid candidate row then record row { perceptual_hashes = some hashes } else row

-- the table, and if a row was changed
unfoldable pub persist_hash_if_current :
    ℕ → String → List AlbumMedia → MediaHashCandidate → List String → List AlbumMedia × Bool
unfolding write_hashes is_as_read
persist_hash_if_current uid aid table candidate hashes =
    (map (write_hashes uid aid candidate hashes) table, any (is_as_read uid aid candidate) table)

-- the hashes that are stored for a name, `none` also where there is no row
unfoldable pub stored_hashes : ℕ → String → List AlbumMedia → String → Option (List String)
stored_hashes uid aid [] name = none
stored_hashes uid aid (row ∷ rows) name =
    if row.uid == uid && row.aid == aid && row.name == name
    then row.perceptual_hashes
    else stored_hashes uid aid rows name

unfoldable pub current_candidates : Files → List MediaHashCandidate → List MediaHashCandidate
unfolding is_unchanged
current_candidates files candidates = filter (is_unchanged files) candidates

-- the turn of one candidate: the table, and what it adds to the statistics
unfoldable pub persist_candidate :
    ℕ
    → String
    → Files
    → HashesByName
    → List AlbumMedia
    → MediaHashCandidate
    → List AlbumMedia × HashBackfillStats
unfolding is_unchanged persist_hash_if_current stored_hashes is_missing
persist_candidate uid aid files hashes_by_name table candidate =
    if not (is_unchanged files candidate)
    then (table, record no_stats { stale = 1 })
    else elim (hashes_by_name candidate.name) [
      | none ↦ (table, record no_stats { failed = 1 })
      | some hashes ↦
          let persisted = persist_hash_if_current uid aid table candidate hashes in
          if persisted.1
          then (persisted.0, record no_stats { hashed = 1 })
          else if is_missing (stored_hashes uid aid persisted.0 candidate.name)
          then (persisted.0, record no_stats { stale = 1 })
          else (persisted.0, record no_stats { already_completed = 1 })
    ]

-- No other request changes the rows of the album while a batch is written.
unfoldable pub persist_media_hash_batch :
    ℕ
    → String
    → Files
    → HashesByName
    → List AlbumMedia
    → List MediaHashCandidate
    → List AlbumMedia × HashBackfillStats
unfolding persist_candidate add_stats
persist_media_hash_batch uid aid files hashes_by_name table [] = (table, no_stats)
persist_media_hash_batch uid aid files hashes_by_name table (candidate ∷ candidates) =
    let first = persist_candidate uid aid files hashes_by_name table candidate in
    let rest = persist_media_hash_batch uid aid files hashes_by_name first.0 candidates in
    (rest.0, add_stats first.1 rest.1)

-- The files and the table as the world changes them before each moment: the discovery is at 0, the
-- second look at the files at 1, and a batch at each of the moments that follow.
pub record World : Type 0 where
  pub files : ℕ → Files
  pub meanwhile : ℕ → List AlbumMedia → List AlbumMedia
  pub compute : List String → HashesByName

unfoldable pub persist_batches :
    ℕ
    → String
    → World
    → HashesByName
    → ℕ
    → List AlbumMedia
    → List (List MediaHashCandidate)
    → List AlbumMedia × HashBackfillStats
unfolding persist_media_hash_batch add_stats
persist_batches uid aid world hashes_by_name moment table [] = (table, no_stats)
persist_batches uid aid world hashes_by_name moment table (batch ∷ batches) =
    let first =
      persist_media_hash_batch uid aid (world.files moment) hashes_by_name
        (world.meanwhile moment table) batch in
    let rest = persist_batches uid aid world hashes_by_name (suc moment) first.0 batches in
    (rest.0, add_stats first.1 rest.1)

unfoldable pub backfill_media_hashes :
    ℕ → String → World → List AlbumMedia → List AlbumMedia × HashBackfillStats
unfolding discover_candidates current_candidates persist_batches add_stats batched
backfill_media_hashes uid aid world table =
    let candidates = (discover_candidates uid aid (world.files 0) table).0 in
    let current = current_candidates (world.files 1) candidates in
    let hashes_by_name = world.compute (map (λ (c : MediaHashCandidate). c.name) current) in
    let written =
      persist_batches uid aid world hashes_by_name 2 table
        (batched (length current) hash_batch_size current) in
    (
      written.0,
      add_stats (record no_stats { stale = length candidates - length current }) written.1,
    )
