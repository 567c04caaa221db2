-- ===== src/MediaHashes/Counted.antt =====
-- The statistics of a run count each candidate once.
use wanderbound.Prelude.{
  ℕ, suc, ◌+◌, ◌-◌, ◌≤◌, ◌≡◌, refl, ap, arith, String, List, [], ◌∷◌, map, filter, length,
  length-append, flatten,
}
use wanderbound.Layout.{batched}
use wanderbound.Layout.Batches.{flatten-batched}
use wanderbound.MediaHashes.{
  MediaHashCandidate, HashBackfillStats, AlbumMedia, Files, HashesByName, hash_batch_size, no_stats,
  add_stats, wants_hash, persist_candidate, persist_media_hash_batch, World, persist_batches,
  current_candidates, snapshot_candidates, discover_candidates, backfill_media_hashes,
}

abbrev pub total : HashBackfillStats → ℕ
total stats = stats.hashed + stats.already_completed + stats.stale + stats.failed

total-add_stats : (a b : HashBackfillStats) → total (add_stats a b) ≡ total a + total b
unfolding add_stats
total-add_stats a b = omega arith

module _ (uid : ℕ) (aid : String) where
  persist_candidate-One :
      (files : Files) (hashes_by_name : HashesByName) (table : List AlbumMedia)
      (candidate : MediaHashCandidate)
      → total (persist_candidate uid aid files hashes_by_name table candidate).1 ≡ 1
  unfolding persist_candidate
  persist_candidate-One files hashes_by_name table candidate = ground arith

  persist_media_hash_batch-total :
      (files : Files) (hashes_by_name : HashesByName) (table : List AlbumMedia)
      (candidates : List MediaHashCandidate)
      → total (persist_media_hash_batch uid aid files hashes_by_name table candidates).1
        ≡ length candidates
  unfolding persist_media_hash_batch
  persist_media_hash_batch-total files hashes_by_name table [] = refl
  persist_media_hash_batch-total files hashes_by_name table (candidate ∷ candidates) =
      let first = persist_candidate uid aid files hashes_by_name table candidate in
      let rest = persist_media_hash_batch uid aid files hashes_by_name first.0 candidates in
      omega (
        arith,
        total-add_stats first.1 rest.1,
        persist_candidate-One files hashes_by_name table candidate,
        persist_media_hash_batch-total files hashes_by_name first.0 candidates,
      )

  persist_batches-total :
      (world : World) (hashes_by_name : HashesByName) (moment : ℕ) (table : List AlbumMedia)
      (batches : List (List MediaHashCandidate))
      → total (persist_batches uid aid world hashes_by_name moment table batches).1
        ≡ length (flatten batches)
  unfolding persist_batches
  persist_batches-total world hashes_by_name moment table [] = refl
  persist_batches-total world hashes_by_name moment table (batch ∷ batches) =
      let first =
        persist_media_hash_batch uid aid (world.files moment) hashes_by_name
          (world.meanwhile moment table) batch in
      let rest = persist_batches uid aid world hashes_by_name (suc moment) first.0 batches in
      omega (
        arith,
        total-add_stats first.1 rest.1,
        persist_media_hash_batch-total (world.files moment) hashes_by_name
            (world.meanwhile moment table) batch,
        persist_batches-total world hashes_by_name (suc moment) first.0 batches,
        length-append {0} batch (flatten batches),
      )

  length-current_candidates :
      (files : Files) (candidates : List MediaHashCandidate)
      → length (current_candidates files candidates) ≤ length candidates
  unfolding current_candidates
  length-current_candidates files [] = omega arith
  length-current_candidates files (candidate ∷ candidates) =
      ground (arith, length-current_candidates files candidates)

  length-snapshot_candidates :
      (files : Files) (rows : List AlbumMedia)
      → length (snapshot_candidates files rows).0 + (snapshot_candidates files rows).1 ≡ length rows
  unfolding snapshot_candidates
  length-snapshot_candidates files [] = refl
  length-snapshot_candidates files (row ∷ rows) =
      ground (arith, length-snapshot_candidates files rows)

  pub backfill_media_hashes-total :
      (world : World) (table : List AlbumMedia)
      → total (backfill_media_hashes uid aid world table).1
          + (discover_candidates uid aid (world.files 0) table).1
        ≡ length (filter (wants_hash uid aid) table)
  unfolding backfill_media_hashes discover_candidates current_candidates
  backfill_media_hashes-total world table =
      let candidates = (discover_candidates uid aid (world.files 0) table).0 in
      let current = current_candidates (world.files 1) candidates in
      let hashes_by_name = world.compute (map (λ (c : MediaHashCandidate). c.name) current) in
      let written =
        persist_batches uid aid world hashes_by_name 2 table
          (batched (length current) hash_batch_size current) in
      omega (
        arith,
        total-add_stats (record no_stats { stale = length candidates - length current }) written.1,
        persist_batches-total world hashes_by_name 2 table
            (batched (length current) hash_batch_size current),
        ap length
            (flatten-batched (length current) hash_batch_size current (omega arith) (omega arith)),
        length-current_candidates (world.files 1) candidates,
        length-snapshot_candidates (world.files 0) (filter (wants_hash uid aid) table),
      )
