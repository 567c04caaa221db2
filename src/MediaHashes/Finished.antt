-- ===== src/MediaHashes/Finished.antt =====
-- What a whole run leaves while nothing else changes the files or the rows of the album.
use wanderbound.Prelude.{
  ℕ, suc, ◌+◌, ◌-◌, ◌≡◌, refl, sym, ap, ◌∙◌, arith, String, Bool, true, not, ◌==◌, nat_eq, List, [],
  ◌∷◌, ◌++◌, map, filter, all, all-append, length, length-append, flatten, Bool-cases, Option-cases,
  inl, inr,
}
use wanderbound.Layout.{batched}
use wanderbound.Layout.Batches.{flatten-batched}
use wanderbound.MediaHashes.{
  MediaHashCandidate, HashBackfillStats, AlbumMedia, Files, HashesByName, hash_batch_size, no_stats,
  add_stats, same_identity, is_unchanged, is_missing, wants_hash, candidate_of, persist_candidate,
  persist_media_hash_batch, World, persist_batches, current_candidates, snapshot_candidates,
  discover_candidates, backfill_media_hashes,
}
use wanderbound.MediaHashes.Quiet.{all_hashed, unique_names, persist_candidate-first}

add_stats-hashed : (m n : ℕ) → add_stats (all_hashed m) (all_hashed n) ≡ all_hashed (m + n)
unfolding add_stats
add_stats-hashed m n = refl

started-hashed :
    (m n : ℕ) → add_stats (record no_stats { stale = m - m }) (all_hashed n) ≡ all_hashed n
unfolding add_stats
started-hashed m n = ground arith

module _ (uid : ℕ) (aid : String) (files : Files) where
  -- what is left and counted when the candidates up to `rest` had their turn
  abbrev IsDone : ℕ → List MediaHashCandidate → List AlbumMedia × HashBackfillStats → Type 0
  IsDone count rest result =
      (result.1 ≡ all_hashed count)
      × (unique_names uid aid result.0 ≡ true)
      × ((discover_candidates uid aid files result.0).0 ≡ rest)

  abbrev has_hashes : HashesByName → MediaHashCandidate → Bool
  has_hashes hashes_by_name candidate = not (is_missing (hashes_by_name candidate.name))

  batch-Done :
      (hashes_by_name : HashesByName) (table : List AlbumMedia)
      (batch rest : List MediaHashCandidate)
      → all (has_hashes hashes_by_name) batch ≡ true
      → unique_names uid aid table ≡ true
      → (discover_candidates uid aid files table).0 ≡ batch ++ rest
      → IsDone
          (length batch)
          rest
          (persist_media_hash_batch uid aid files hashes_by_name table batch)
  unfolding persist_media_hash_batch
  batch-Done hashes_by_name table [] rest k u h = (refl, u, h)
  batch-Done hashes_by_name table (candidate ∷ batch) rest k u h =
      let (counted, unique, left) =
        persist_candidate-first uid aid files hashes_by_name table candidate (batch ++ rest)
          (ground (arith, k)) u h in
      let (counted', unique', left') =
        batch-Done hashes_by_name (persist_candidate uid aid files hashes_by_name table candidate).0
          batch rest (ground (arith, k)) unique left in
      (
        rw (counted, counted') (add_stats-hashed 1 (length batch) ∙ ap all_hashed (omega arith)),
        unique',
        left',
      )

  batches-Done :
      (world : World) (hashes_by_name : HashesByName) (moment : ℕ) (table : List AlbumMedia)
      (batches : List (List MediaHashCandidate))
      → ((n : ℕ) → world.files n ≡ files)
      → ((n : ℕ) (rows : List AlbumMedia) → world.meanwhile n rows ≡ rows)
      → all (has_hashes hashes_by_name) (flatten batches) ≡ true
      → unique_names uid aid table ≡ true
      → (discover_candidates uid aid files table).0 ≡ flatten batches
      → IsDone
          (length (flatten batches))
          []
          (persist_batches uid aid world hashes_by_name moment table batches)
  unfolding persist_batches
  batches-Done world hashes_by_name moment table [] same still k u h = (refl, u, h)
  batches-Done world hashes_by_name moment table (batch ∷ batches) same still k u h =
      let (counted, unique, left) =
        batch-Done hashes_by_name table batch (flatten batches)
          (ground (arith, k, all-append {0} (has_hashes hashes_by_name) batch (flatten batches))) u
          h in
      let written = persist_media_hash_batch uid aid files hashes_by_name table batch in
      let (counted', unique', left') =
        batches-Done world hashes_by_name (suc moment) written.0 batches same still
          (ground (arith, k, all-append {0} (has_hashes hashes_by_name) batch (flatten batches)))
          unique left in
      rw (same moment, still moment table)
        (
          rw (counted, counted')
              (add_stats-hashed (length batch) (length (flatten batches))
                ∙ ap all_hashed (sym (length-append {0} batch (flatten batches)))),
          unique',
          left',
        )

  unchanged-all :
      (rows : List AlbumMedia)
      → current_candidates files (snapshot_candidates files rows).0
        ≡ (snapshot_candidates files rows).0
  unfolding current_candidates snapshot_candidates is_unchanged same_identity candidate_of
  unchanged-all [] = refl
  unchanged-all (row ∷ rows) = elim (Option-cases (files row.name)) [
    | inl e ↦ rw (snapshot_candidates, e) (unchanged-all rows)
    | inr (file, e) ↦ elim (Bool-cases (file.size == row.byte_size)) [
      | inl fits ↦
          let kept : is_unchanged files (candidate_of row file) ≡ true =
            rw (is_unchanged, e) (ground arith) in
          rw (snapshot_candidates, e, fits, current_candidates, filter, kept)
            (ap (◌∷◌ (candidate_of row file)) (unchanged-all rows))
      | inr differs ↦ rw (snapshot_candidates, e, differs) (unchanged-all rows)
    ]
  ]

  all-names :
      (hashes_by_name : HashesByName) (candidates : List MediaHashCandidate)
      → all
          (λ name. not (is_missing (hashes_by_name name)))
          (map (λ (c : MediaHashCandidate). c.name) candidates)
        ≡ all (has_hashes hashes_by_name) candidates
  all-names hashes_by_name [] = refl
  all-names hashes_by_name (candidate ∷ candidates) =
      ground (arith, all-names hashes_by_name candidates)

  -- Nothing else changes the files or the table, and each photo that is asked for gets its hashes.
  abbrev pub IsQuiet : World → Type 0
  IsQuiet world =
      ((n : ℕ) → world.files n ≡ files)
      × ((n : ℕ) (rows : List AlbumMedia) → world.meanwhile n rows ≡ rows)
      × ((names : List String)
          → all (λ name. not (is_missing (world.compute names name))) names ≡ true)

  -- A run that nothing disturbs, over an album whose names differ, hashes all its candidates, counts
  -- each of them as hashed and nothing else, and leaves no candidate.
  pub backfill_media_hashes_complete :
      (world : World) (table : List AlbumMedia)
      → IsQuiet world
      → unique_names uid aid table ≡ true
      → ((backfill_media_hashes uid aid world table).1
          ≡ all_hashed (length (discover_candidates uid aid files table).0))
        × ((discover_candidates uid aid files (backfill_media_hashes uid aid world table).0).0 ≡ [])
  unfolding backfill_media_hashes
  backfill_media_hashes_complete world table quiet u =
      let candidates = (discover_candidates uid aid files table).0 in
      let hashes_by_name = world.compute (map (λ (c : MediaHashCandidate). c.name) candidates) in
      let batches = batched (length candidates) hash_batch_size candidates in
      let whole : flatten batches ≡ candidates =
        flatten-batched (length candidates) hash_batch_size candidates (omega arith)
          (omega arith) in
      let (counted, unique, left) =
        batches-Done world hashes_by_name 2 table batches quiet.0 quiet.1
          (rw whole (
            sym (all-names hashes_by_name candidates)
            ∙ quiet.2 (map (λ (c : MediaHashCandidate). c.name) candidates)))
          u (sym whole) in
      rw (quiet.0 0, quiet.0 1, unchanged-all (filter (wants_hash uid aid) table))
        (rw (counted, whole) (started-hashed (length candidates) (length candidates)), left)
