-- ===== src/MediaHashes/Listed.antt =====
-- Which albums are to be hashed: their targets are counted.
use wanderbound.Prelude.{
  ℕ, ◌≡◌, ◌≢◌, refl, sym, ap, ◌∙◌, arith, String, Bool, true, false, ◌&&◌, ◌||◌, ◌==◌, Eq, eq_refl,
  eq_comm, string_eq, nat_eq, contains, set_union, contains-set_union, Option, none, some, List, [],
  ◌∷◌, map, filter, any, all, Option-cases, Bool-cases, inl, inr, subst, count, set_add,
  contains-set_add, if◌then◌else◌,
}
use wanderbound.Prelude.Sorting.{insert_sorted, sorted, contains-sorted, count-sorted}
use wanderbound.Operations.{Operation}
use wanderbound.MediaHashes.{AlbumMedia, is_missing}
use wanderbound.MediaHashes.Targets.{
  AlbumKey, album_eq, MediaHashBackfillTarget, lacks_hash, is_photo_of, album_of, by_album,
  missing_albums, media_hash_backfill_revision, targets_of, missing_media_hash_backfill_targets,
}

abbrev is_known : {A : Type 0} → Option A → Bool
is_known none = false
is_known (some a) = true

is_known-some : {A : Type 0} (o : Option A) → o ≢ none → is_known o ≡ true
is_known-some none h = absurd (h refl)
is_known-some (some a) h = refl

any-insert_sorted :
    {A : Type 0} (le : A → A → Bool) (p : A → Bool) (x : A) (xs : List A)
    → any p (insert_sorted le x xs) ≡ (p x || any p xs)
unfolding insert_sorted
any-insert_sorted le p x [] = refl
any-insert_sorted le p x (y ∷ ys) = ground (arith, any-insert_sorted le p x ys)

any-sorted :
    {A : Type 0} (le : A → A → Bool) (p : A → Bool) (xs : List A) → any p (sorted le xs) ≡ any p xs
unfolding sorted
any-sorted le p [] = refl
any-sorted le p (x ∷ xs) =
    ground (arith, any-insert_sorted le p x (sorted le xs), any-sorted le p xs)

all_contained :
    {A : Type 0} ⦃e : Eq A⦄ (p : A → Bool) (xs : List A)
    → ((a : A) → contains xs a ≡ true → p a ≡ true)
    → all p xs ≡ true
all_contained p [] h = refl
all_contained p (x ∷ xs) h =
    ground
      (arith, h x (ground (arith, eq_refl x)), all_contained p xs (λ a k. h a (ground (arith, k))))

-- A set has each element once.
count-set_union_from :
    {A : Type 0} ⦃e : Eq A⦄ (seen xs : List A) (a : A)
    → count seen a ≡ (if contains seen a then 1 else 0)
    → count (set_union seen xs) a ≡ (if contains seen a || contains xs a then 1 else 0)
count-set_union_from seen [] a h = ground (arith, h)
count-set_union_from ⦃e⦄ seen (x ∷ xs) a h = elim (Bool-cases (a == x)) [
  | inl same ↦
      let grown : count (set_add seen x) a ≡ (if contains (set_add seen x) a then 1 else 0) =
        subst (λ b. count (set_add seen b) a ≡ (if contains (set_add seen b) a then 1 else 0))
          ((e.same_iff a x).0 same) (ground (arith, h, eq_refl a, contains-set_add seen a a)) in
      ground
        (arith, same, contains-set_add seen x a, count-set_union_from (set_add seen x) xs a grown)
  | inr apart ↦
      let grown : count (set_add seen x) a ≡ (if contains (set_add seen x) a then 1 else 0) =
        ground (arith, h, apart) in
      ground
        (arith, apart, contains-set_add seen x a, count-set_union_from (set_add seen x) xs a grown)
]

count-set_union :
    {A : Type 0} ⦃e : Eq A⦄ (xs : List A) (a : A)
    → count (set_union [] xs) a ≡ (if contains xs a then 1 else 0)
count-set_union xs a = count-set_union_from [] xs a refl

map_same : {A : Type 0} (xs : List A) → map (λ x. x) xs ≡ xs
map_same [] = refl
map_same (x ∷ xs) = ap (◌∷◌ x) (map_same xs)

count-sorted_keys :
    {A : Type 0} ⦃e : Eq A⦄ (le : A → A → Bool) (xs : List A) (a : A)
    → count (sorted le xs) a ≡ count xs a
count-sorted_keys le xs a =
    ap (λ ys. count ys a) (sym (map_same (sorted le xs)))
    ∙ count-sorted le (λ x. x) xs a
    ∙ ap (λ ys. count ys a) (map_same xs)

contains-lacks_hash :
    (table : List AlbumMedia) (album : AlbumKey)
    → contains (map album_of (filter lacks_hash table)) album
      ≡ any (λ (row : AlbumMedia). is_photo_of album row && is_missing row.perceptual_hashes) table
unfolding album_of lacks_hash is_photo_of
contains-lacks_hash [] album = refl
contains-lacks_hash (row ∷ rows) album =
    ground (arith, eq_comm album.0 row.uid, eq_comm album.1 row.aid, contains-lacks_hash rows album)

module _ (digest : List (String × ℕ × ℕ) → String) (text_leb : String → String → Bool) where
  contains-lacking :
      (table : List AlbumMedia) (album : AlbumKey)
      → contains (map album_of (filter lacks_hash table)) album ≡ true
      → any
          (λ (row : AlbumMedia). is_missing row.perceptual_hashes)
          (filter (is_photo_of album) table)
        ≡ true
  unfolding album_of lacks_hash is_photo_of
  contains-lacking [] album h = absurd (ground (arith, h))
  contains-lacking (row ∷ rows) album h =
      ground
        (arith, h, eq_comm album.0 row.uid, eq_comm album.1 row.aid, contains-lacking rows album)

  has_revision :
      (table : List AlbumMedia) (album : AlbumKey)
      → contains (missing_albums text_leb table) album ≡ true
      → media_hash_backfill_revision digest text_leb table album ≢ none
  unfolding missing_albums media_hash_backfill_revision
  has_revision table album h none_left =
      let keys = map album_of (filter lacks_hash table) in
      let asked : contains keys album ≡ true =
        sym (contains-set_union [] keys album)
        ∙ sym (contains-sorted (by_album text_leb) (set_union [] keys) album)
        ∙ h in
      ground (
        arith,
        none_left,
        contains-lacking table album asked,
        any-sorted (λ (a : AlbumMedia) (b : AlbumMedia). text_leb a.name b.name)
            (λ (row : AlbumMedia). is_missing row.perceptual_hashes)
            (filter (is_photo_of album) table),
      )

  albums-targets_of :
      (table : List AlbumMedia) (operations : List Operation) (albums : List AlbumKey)
      → all (λ album. is_known (media_hash_backfill_revision digest text_leb table album)) albums
        ≡ true
      → map
          (λ (t : MediaHashBackfillTarget). t.album)
          (targets_of digest text_leb table operations albums)
        ≡ albums
  unfolding targets_of
  albums-targets_of table operations [] h = refl
  albums-targets_of table operations (album ∷ albums) h =
      elim (Option-cases (media_hash_backfill_revision digest text_leb table album)) [
        | inl e ↦ absurd (ground (arith, ap is_known e, h))
        | inr (revision, e) ↦
            rw (targets_of, e)
              (ap (◌∷◌ album) (albums-targets_of table operations albums (ground (arith, h))))
      ]

  albums-missing :
      (table : List AlbumMedia) (operations : List Operation)
      → map
          (λ (t : MediaHashBackfillTarget). t.album)
          (missing_media_hash_backfill_targets digest text_leb table operations)
        ≡ missing_albums text_leb table
  unfolding missing_media_hash_backfill_targets
  albums-missing table operations =
      albums-targets_of table operations (missing_albums text_leb table) (
        all_contained (λ album. is_known (media_hash_backfill_revision digest text_leb table album))
          (missing_albums text_leb table)
          (λ album h.
            is_known-some (media_hash_backfill_revision digest text_leb table album)
              (has_revision table album h)))

  -- An album, of any user, that has a photo without hashes in the table is a target exactly once,
  -- and any other album is none.
  pub count-missing_media_hash_backfill_targets :
      (table : List AlbumMedia) (operations : List Operation) (album : AlbumKey)
      → count
          (map
            (λ (t : MediaHashBackfillTarget). t.album)
            (missing_media_hash_backfill_targets digest text_leb table operations))
          album
        ≡ (if any
              (λ (row : AlbumMedia). is_photo_of album row && is_missing row.perceptual_hashes)
              table
            then 1
            else 0)
  unfolding missing_albums
  count-missing_media_hash_backfill_targets table operations album =
      let keys = map album_of (filter lacks_hash table) in
      ap (λ albums. count albums album) (albums-missing table operations)
      ∙ count-sorted_keys (by_album text_leb) (set_union [] keys) album
      ∙ count-set_union keys album
      ∙ ap (λ b. if b then 1 else 0) (contains-lacks_hash table album)
