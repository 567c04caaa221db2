-- ===== src/MediaHashes/Kept.antt =====
-- What a run changes in the table: nothing but hashes that are missing.
use wanderbound.Prelude.{
  ℕ, suc, ◌≡◌, ◌⊎◌, inl, inr, refl, subst, arith, String, true, not, ◌&&◌, ◌==◌, string_eq, nat_eq,
  some, List, [], ◌∷◌, map, length, Bool-cases, Option-cases,
}
use wanderbound.Layout.{batched}
use wanderbound.MediaHashes.{
  MediaHashCandidate, AlbumMedia, Files, HashesByName, hash_batch_size, is_unchanged, is_missing,
  is_as_read, write_hashes, persist_candidate, persist_hash_if_current, persist_media_hash_batch,
  World, persist_batches, current_candidates, discover_candidates, backfill_media_hashes,
}

module _ (uid : ℕ) (aid : String) (hashes_by_name : HashesByName) where
  -- a row stays, or it is of the album and gets the hashes of its name, where it had none
  abbrev IsUpdate : AlbumMedia → AlbumMedia → Type 0
  IsUpdate row row' =
      (row' ≡ row)
      ⊎ ((row.uid == uid
              && row.aid == aid
              && is_missing row.perceptual_hashes
              && not (is_missing (hashes_by_name row.name))
            ≡ true)
          × (row' ≡ record row { perceptual_hashes = hashes_by_name row.name }))

  abbrev pub Updated : List AlbumMedia → List AlbumMedia → Type 0
  Updated [] [] = Unit {0}
  Updated [] (row' ∷ rows') = ⊥
  Updated (row ∷ rows) [] = ⊥
  Updated (row ∷ rows) (row' ∷ rows') = IsUpdate row row' × Updated rows rows'

  Updated-refl : (rows : List AlbumMedia) → Updated rows rows
  Updated-refl [] = tt
  Updated-refl (row ∷ rows) = (inl refl, Updated-refl rows)

  IsUpdate-trans : (a b c : AlbumMedia) → IsUpdate a b → IsUpdate b c → IsUpdate a c
  IsUpdate-trans a b c (inl p) q = subst (λ r. IsUpdate r c) p q
  IsUpdate-trans a b c (inr p) (inl q) = inr (p.0, rw q p.1)
  IsUpdate-trans a b c (inr p) (inr q) = absurd (ground (arith, p.0, rw p.1 at q.0))

  Updated-trans : (a b c : List AlbumMedia) → Updated a b → Updated b c → Updated a c
  Updated-trans [] [] [] p q = tt
  Updated-trans [] [] (z ∷ c) p q = absurd q
  Updated-trans [] (y ∷ b) c p q = absurd p
  Updated-trans (x ∷ a) [] c p q = absurd p
  Updated-trans (x ∷ a) (y ∷ b) [] p q = absurd q
  Updated-trans (x ∷ a) (y ∷ b) (z ∷ c) p q =
      (IsUpdate-trans x y z p.0 q.0, Updated-trans a b c p.1 q.1)

  write-Update :
      (candidate : MediaHashCandidate) (hashes : List String) (row : AlbumMedia)
      → hashes_by_name candidate.name ≡ some hashes
      → IsUpdate row (write_hashes uid aid candidate hashes row)
  unfolding write_hashes is_as_read is_missing
  write-Update candidate hashes row h = elim (Bool-cases (is_as_read uid aid candidate row)) [
    | inl current ↦
        let same : row.name ≡ candidate.name =
          (string_eq.same_iff row.name candidate.name).0 (ground (arith, current)) in
        let own : hashes_by_name row.name ≡ some hashes = rw same h in
        rw (write_hashes, current) (inr (ground (arith, current, own), rw own refl))
    | inr other ↦ rw (write_hashes, other) (inl refl)
  ]

  writes-Updated :
      (candidate : MediaHashCandidate) (hashes : List String) (rows : List AlbumMedia)
      → hashes_by_name candidate.name ≡ some hashes
      → Updated rows (map (write_hashes uid aid candidate hashes) rows)
  writes-Updated candidate hashes [] h = tt
  writes-Updated candidate hashes (row ∷ rows) h =
      (write-Update candidate hashes row h, writes-Updated candidate hashes rows h)

  -- the table is as before, or the hashes of the name were written
  persist_candidate-table :
      (files : Files) (table : List AlbumMedia) (candidate : MediaHashCandidate)
      (hashes : List String)
      → hashes_by_name candidate.name ≡ some hashes
      → ((persist_candidate uid aid files hashes_by_name table candidate).0 ≡ table)
        ⊎ ((persist_candidate uid aid files hashes_by_name table candidate).0
            ≡ map (write_hashes uid aid candidate hashes) table)
  unfolding persist_candidate persist_hash_if_current
  persist_candidate-table files table candidate hashes h =
      elim (Bool-cases (is_unchanged files candidate)) [
        | inl same ↦ inr (rw (persist_candidate, same, h) (ground arith))
        | inr other ↦ inl (rw (persist_candidate, other) refl)
      ]

  persist_candidate-Updated :
      (files : Files) (table : List AlbumMedia) (candidate : MediaHashCandidate)
      → Updated table (persist_candidate uid aid files hashes_by_name table candidate).0
  unfolding persist_candidate
  persist_candidate-Updated files table candidate =
      elim (Option-cases (hashes_by_name candidate.name)) [
        | inl h ↦
            let same : (persist_candidate uid aid files hashes_by_name table candidate).0 ≡ table =
              ground (arith, h) in
            rw same (Updated-refl table)
        | inr (hashes, h) ↦ elim (persist_candidate-table files table candidate hashes h) [
          | inl same ↦ rw same (Updated-refl table)
          | inr written ↦ rw written (writes-Updated candidate hashes table h)
        ]
      ]

  pub persist_media_hash_batch-Updated :
      (files : Files) (table : List AlbumMedia) (candidates : List MediaHashCandidate)
      → Updated table (persist_media_hash_batch uid aid files hashes_by_name table candidates).0
  unfolding persist_media_hash_batch
  persist_media_hash_batch-Updated files table [] = Updated-refl table
  persist_media_hash_batch-Updated files table (candidate ∷ candidates) =
      let first = persist_candidate uid aid files hashes_by_name table candidate in
      Updated-trans table first.0
        (persist_media_hash_batch uid aid files hashes_by_name first.0 candidates).0
        (persist_candidate-Updated files table candidate)
        (persist_media_hash_batch-Updated files first.0 candidates)

  persist_batches-Updated :
      (world : World) (moment : ℕ) (table : List AlbumMedia)
      (batches : List (List MediaHashCandidate))
      → ((n : ℕ) (rows : List AlbumMedia) → world.meanwhile n rows ≡ rows)
      → Updated table (persist_batches uid aid world hashes_by_name moment table batches).0
  unfolding persist_batches
  persist_batches-Updated world moment table [] still = Updated-refl table
  persist_batches-Updated world moment table (batch ∷ batches) still =
      let first =
        persist_media_hash_batch uid aid (world.files moment) hashes_by_name table batch in
      rw (still moment table) (
        Updated-trans table first.0
          (persist_batches uid aid world hashes_by_name (suc moment) first.0 batches).0
          (persist_media_hash_batch-Updated (world.files moment) table batch)
          (persist_batches-Updated world (suc moment) first.0 batches still))

-- the hashes that a run asks for
abbrev pub asked_hashes : ℕ → String → World → List AlbumMedia → HashesByName
asked_hashes uid aid world table = world.compute (
    map (λ (c : MediaHashCandidate). c.name)
      (current_candidates (world.files 1) (discover_candidates uid aid (world.files 0) table).0))

-- Where no other request changes the table meanwhile, a run leaves each row as it was, or gives a row
-- of the album that had no hashes those of its name; whatever happens to the files.
pub backfill_media_hashes-Updated :
    (uid : ℕ) (aid : String) (world : World) (table : List AlbumMedia)
    → ((n : ℕ) (rows : List AlbumMedia) → world.meanwhile n rows ≡ rows)
    → Updated uid aid
        (asked_hashes uid aid world table)
        table
        (backfill_media_hashes uid aid world table).0
unfolding backfill_media_hashes
backfill_media_hashes-Updated uid aid world table still =
    let current =
      current_candidates (world.files 1) (discover_candidates uid aid (world.files 0) table).0 in
    persist_batches-Updated uid aid (asked_hashes uid aid world table) world 2 table
      (batched (length current) hash_batch_size current) still
