-- ===== src/MediaHashes/Quiet.antt =====
-- A run while nothing else changes the files or the rows of the album.
use wanderbound.Prelude.{
  ℕ, ◌≡◌, refl, sym, ap, subst, subst₂, ◌∙◌, arith, String, Bool, true, false, not, ◌&&◌, ◌==◌,
  eq_refl, string_eq, nat_eq, none, some, List, [], ◌∷◌, map, filter, any, Bool-cases, Option-cases,
  inl, inr,
}
use wanderbound.MediaHashes.{
  MediaHashCandidate, HashBackfillStats, FileIdentity, AlbumMedia, Files, HashesByName, no_stats,
  same_identity, is_unchanged, is_missing, wants_hash, candidate_of, is_as_read, write_hashes,
  persist_candidate, persist_hash_if_current, snapshot_candidates, discover_candidates,
}

-- `count` candidates, all hashed
abbrev pub all_hashed : ℕ → HashBackfillStats
all_hashed count = record no_stats { hashed = count }

head_same : {A : Type 0} {a b : A} {xs ys : List A} → a ∷ xs ≡ b ∷ ys → a ≡ b
head_same e = cc

tail_same : {A : Type 0} {a b : A} {xs ys : List A} → a ∷ xs ≡ b ∷ ys → xs ≡ ys
tail_same e = cc

module _ (uid : ℕ) (aid : String) where
  -- the row of the album with the name
  abbrev is_named : String → AlbumMedia → Bool
  is_named name row = row.uid == uid && row.aid == aid && row.name == name

  -- the names in the album are different
  abbrev pub unique_names : List AlbumMedia → Bool
  unique_names [] = true
  unique_names (row ∷ rows) =
      not (row.uid == uid && row.aid == aid && any (is_named row.name) rows) && unique_names rows

  as_read-named :
      (candidate : MediaHashCandidate) (row : AlbumMedia)
      → is_named candidate.name row ≡ false
      → is_as_read uid aid candidate row ≡ false
  unfolding is_as_read
  as_read-named candidate row h = ground (arith, h)

  named-apart :
      (name : String) (row : AlbumMedia) (rows : List AlbumMedia)
      → unique_names (row ∷ rows) ≡ true
      → any (is_named name) rows ≡ true
      → is_named name row ≡ false
  named-apart name row rows u = elim (Bool-cases (row.name == name)) [
    | inl equal ↦
        subst (λ n. any (is_named n) rows ≡ true → is_named n row ≡ false)
          ((string_eq.same_iff row.name name).0 equal) (λ k. ground (arith, u, k))
    | inr apart ↦ λ k. ground (arith, apart)
  ]

  write-unnamed :
      (candidate : MediaHashCandidate) (hashes : List String) (rows : List AlbumMedia)
      → any (is_named candidate.name) rows ≡ false
      → map (write_hashes uid aid candidate hashes) rows ≡ rows
  unfolding write_hashes
  write-unnamed candidate hashes [] h = refl
  write-unnamed candidate hashes (row ∷ rows) h =
      rw (write_hashes, as_read-named candidate row (ground (arith, h)))
        (ap (◌∷◌ row) (write-unnamed candidate hashes rows (ground (arith, h))))

  any-write :
      (name : String) (candidate : MediaHashCandidate) (hashes : List String)
      (rows : List AlbumMedia)
      → any (is_named name) (map (write_hashes uid aid candidate hashes) rows)
        ≡ any (is_named name) rows
  unfolding write_hashes
  any-write name candidate hashes [] = refl
  any-write name candidate hashes (row ∷ rows) =
      ground (arith, any-write name candidate hashes rows)

  unique_names-write :
      (candidate : MediaHashCandidate) (hashes : List String) (rows : List AlbumMedia)
      → unique_names (map (write_hashes uid aid candidate hashes) rows) ≡ unique_names rows
  unfolding write_hashes
  unique_names-write candidate hashes [] = refl
  unique_names-write candidate hashes (row ∷ rows) =
      ground
        (arith, unique_names-write candidate hashes rows, any-write row.name candidate hashes rows)

  module _ (files : Files) where
    -- the row is wanted, and its file is there with the size of the row
    abbrev is_taken : AlbumMedia → Bool
    is_taken row =
        wants_hash uid aid row
        && elim (files row.name) [ none ↦ false | some file ↦ file.size == row.byte_size ]

    taken-wanted : (row : AlbumMedia) → is_taken row ≡ true → wants_hash uid aid row ≡ true
    taken-wanted row h = ground (arith, h)

    taken-size :
        (row : AlbumMedia) (file : FileIdentity)
        → is_taken row ≡ true
        → files row.name ≡ some file
        → (file.size == row.byte_size) ≡ true
    taken-size row file h e = ground (arith, h, e)

    discover-other :
        (row : AlbumMedia) (rows : List AlbumMedia)
        → is_taken row ≡ false
        → (discover_candidates uid aid files (row ∷ rows)).0
          ≡ (discover_candidates uid aid files rows).0
    unfolding discover_candidates snapshot_candidates
    discover-other row rows h = elim (Bool-cases (wants_hash uid aid row)) [
      | inl wanted ↦ elim (Option-cases (files row.name)) [
        | inl e ↦ rw (discover_candidates, filter, wanted, snapshot_candidates, e) refl
        | inr (file, e) ↦
            let differs : (file.size == row.byte_size) ≡ false = ground (arith, h, wanted, e) in
            rw (discover_candidates, filter, wanted, snapshot_candidates, e, differs) refl
      ]
      | inr other ↦ rw (discover_candidates, filter, other) refl
    ]

    discover-taken :
        (row : AlbumMedia) (rows : List AlbumMedia)
        → is_taken row ≡ true
        → (file : FileIdentity) × (files row.name ≡ some file)
          × ((discover_candidates uid aid files (row ∷ rows)).0
              ≡ candidate_of row file ∷ (discover_candidates uid aid files rows).0)
    unfolding discover_candidates snapshot_candidates
    discover-taken row rows h = elim (Option-cases (files row.name)) [
      | inl e ↦ absurd (ground (arith, h, e))
      | inr (file, e) ↦ (
        file,
        e,
        rw
            (
              discover_candidates,
              filter,
              taken-wanted row h,
              snapshot_candidates,
              e,
              taken-size row file h e,
            )
            refl,
      )
    ]

    -- The first candidate is of a row that is current, its file is unchanged, and when its hashes are
    -- written, the other candidates are left.
    abbrev IsFirst :
        List String → List AlbumMedia → MediaHashCandidate → List MediaHashCandidate → Type 0
    IsFirst hashes table candidate candidates =
        (any (is_named candidate.name) table ≡ true)
        × (any (is_as_read uid aid candidate) table ≡ true)
        × (is_unchanged files candidate ≡ true)
        × ((discover_candidates uid aid files (map (write_hashes uid aid candidate hashes) table)).0
            ≡ candidates)

    taken-First :
        (hashes : List String) (row : AlbumMedia) (rows : List AlbumMedia) (file : FileIdentity)
        → unique_names (row ∷ rows) ≡ true
        → is_taken row ≡ true
        → files row.name ≡ some file
        → IsFirst hashes
            (row ∷ rows)
            (candidate_of row file)
            (discover_candidates uid aid files rows).0
    unfolding candidate_of is_as_read is_unchanged same_identity write_hashes wants_hash
    taken-First hashes row rows file u taken e =
        let wanted = taken-wanted row taken in
        let current : is_as_read uid aid (candidate_of row file) row ≡ true =
          ground (arith, wanted, eq_refl row.name) in
        let others : any (is_named row.name) rows ≡ false = ground (arith, u, wanted) in
        (
          ground (arith, wanted, eq_refl row.name),
          ground (arith, current),
          rw (is_unchanged, e) (ground arith),
          rw (write_hashes, current)
              (discover-other (record row { perceptual_hashes = some hashes })
                  (map (write_hashes uid aid (candidate_of row file) hashes) rows) (ground arith)
                ∙ ap (λ t. (discover_candidates uid aid files t).0)
                    (write-unnamed (candidate_of row file) hashes rows others)),
        )

    discover-IsFirst :
        (hashes : List String) (table : List AlbumMedia) (candidate : MediaHashCandidate)
        (candidates : List MediaHashCandidate)
        → unique_names table ≡ true
        → (discover_candidates uid aid files table).0 ≡ candidate ∷ candidates
        → IsFirst hashes table candidate candidates
    unfolding discover_candidates snapshot_candidates write_hashes
    discover-IsFirst hashes [] candidate candidates u h = absurd (ground (arith, h))
    discover-IsFirst hashes (row ∷ rows) candidate candidates u h =
        elim (Bool-cases (is_taken row)) [
          | inl taken ↦
              let (file, e, found) = discover-taken row rows taken in
              subst₂ (IsFirst hashes (row ∷ rows)) (head_same (sym found ∙ h))
                (tail_same (sym found ∙ h)) (taken-First hashes row rows file u taken e)
          | inr other ↦
              let ih =
                discover-IsFirst hashes rows candidate candidates (ground (arith, u))
                  (sym (discover-other row rows other) ∙ h) in
              let unnamed : is_named candidate.name row ≡ false =
                named-apart candidate.name row rows u ih.0 in
              (
                ground (arith, ih.0),
                ground (arith, ih.1),
                ih.2,
                rw (write_hashes, as_read-named candidate row unnamed)
                    (discover-other row (map (write_hashes uid aid candidate hashes) rows) other
                      ∙ ih.3),
              )
        ]

    -- what a turn leaves and counts, if its candidate is the first of those that are left
    pub persist_candidate-first :
        (hashes_by_name : HashesByName) (table : List AlbumMedia) (candidate : MediaHashCandidate)
        (candidates : List MediaHashCandidate)
        → is_missing (hashes_by_name candidate.name) ≡ false
        → unique_names table ≡ true
        → (discover_candidates uid aid files table).0 ≡ candidate ∷ candidates
        → ((persist_candidate uid aid files hashes_by_name table candidate).1 ≡ all_hashed 1)
          × (unique_names (persist_candidate uid aid files hashes_by_name table candidate).0 ≡ true)
          × ((discover_candidates uid aid files
                (persist_candidate uid aid files hashes_by_name table candidate).0).0
              ≡ candidates)
    unfolding persist_candidate persist_hash_if_current is_missing
    persist_candidate-first hashes_by_name table candidate candidates k u h =
        elim (Option-cases (hashes_by_name candidate.name)) [
          | inl e ↦ absurd (ground (arith, k, e))
          | inr (hashes, e) ↦
              let (named, current, unchanged, left) =
                discover-IsFirst hashes table candidate candidates u h in
              (
                rw (persist_candidate, unchanged, e, persist_hash_if_current, current) refl,
                rw (persist_candidate, unchanged, e, persist_hash_if_current, current)
                    (unique_names-write candidate hashes table ∙ u),
                rw (persist_candidate, unchanged, e, persist_hash_if_current, current) left,
              )
        ]
