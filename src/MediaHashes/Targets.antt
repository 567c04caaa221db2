-- ===== src/MediaHashes/Targets.antt =====
-- The albums that are to be hashed, and the start of their runs. The workflow engine is an argument,
-- as are the digest of a list of rows and the order of texts in the database.
use wanderbound.Prelude.{
  ℕ, ◌≡◌, ◌↔◌, arith, String, Bool, true, false, not, ◌&&◌, ◌||◌, ◌==◌, Eq, eq_refl, string_eq,
  nat_eq, set_union, Option, none, some, List, [], ◌∷◌, map, filter, any, max, ltb, if◌then◌else◌,
}
use wanderbound.Prelude.Sorting.{sorted}
use wanderbound.Operations.{Operation, Status, queued, running, succeeded, failed, cancelled, stale}
use wanderbound.MediaHashes.{AlbumMedia, is_missing}

abbrev pub AlbumKey : Type 0
AlbumKey = ℕ × String

abbrev pub same_key : AlbumKey → AlbumKey → Bool
same_key a b = a.0 == b.0 && a.1 == b.1

pair_path : {a b : AlbumKey} → a.0 ≡ b.0 → a.1 ≡ b.1 → a ≡ b
pair_path p q = λ i. (p i, q i)

pub same_key_iff : (a b : AlbumKey) → (same_key a b ≡ true) ↔ (a ≡ b)
same_key_iff a b = (
  λ h.
      pair_path ((nat_eq.same_iff a.0 b.0).0 (ground (arith, h)))
        ((string_eq.same_iff a.1 b.1).0 (ground (arith, h))),
  λ p. rw p (ground (arith, eq_refl b.1)),
)

instance abbrev pub album_eq : Eq AlbumKey
album_eq = record { same = same_key; same_iff = same_key_iff }

pub record MediaHashBackfillTarget : Type 0 where
  pub album : AlbumKey
  pub upload_generation : ℕ
  pub revision : String

unfoldable pub is_succeeded : Status → Bool
is_succeeded queued = false
is_succeeded running = false
is_succeeded succeeded = true
is_succeeded failed = false
is_succeeded cancelled = false
is_succeeded stale = false

-- `generation_by_uid.get(uid, 0)`: generations are not negative
unfoldable pub latest_generation : List Operation → ℕ → ℕ
unfolding is_succeeded
latest_generation [] uid = 0
latest_generation (operation ∷ operations) uid =
    let rest = latest_generation operations uid in
    if operation.uid == uid && is_succeeded operation.status
    then max operation.upload_generation rest
    else rest

unfoldable pub lacks_hash : AlbumMedia → Bool
unfolding is_missing
lacks_hash row = is_missing row.perceptual_hashes && row.kind == "photo"

unfoldable pub is_photo_of : AlbumKey → AlbumMedia → Bool
is_photo_of album row = row.uid == album.0 && row.aid == album.1 && row.kind == "photo"

unfoldable pub album_of : AlbumMedia → AlbumKey
album_of row = (row.uid, row.aid)

module _ (text_leb : String → String → Bool) where
  unfoldable pub by_album : AlbumKey → AlbumKey → Bool
  by_album a b = ltb a.0 b.0 || (a.0 == b.0 && text_leb a.1 b.1)

  unfoldable pub missing_albums : List AlbumMedia → List AlbumKey
  unfolding by_album lacks_hash sorted album_of
  missing_albums table = sorted by_album (set_union [] (map album_of (filter lacks_hash table)))

module _ (digest : List (String × ℕ × ℕ) → String) (text_leb : String → String → Bool) where
  unfoldable pub media_hash_backfill_revision : List AlbumMedia → AlbumKey → Option String
  unfolding is_missing is_photo_of sorted
  media_hash_backfill_revision table album =
      let rows =
        sorted (λ (a : AlbumMedia) (b : AlbumMedia). text_leb a.name b.name)
          (filter (is_photo_of album) table) in
      if not (any (λ (row : AlbumMedia). is_missing row.perceptual_hashes) rows)
      then none
      else some
          (digest (map (λ (row : AlbumMedia). (row.name, row.updated_at, row.byte_size)) rows))

  unfoldable pub targets_of :
      List AlbumMedia → List Operation → List AlbumKey → List MediaHashBackfillTarget
  unfolding media_hash_backfill_revision latest_generation
  targets_of table operations [] = []
  targets_of table operations (album ∷ albums) =
      let rest = targets_of table operations albums in
      elim (media_hash_backfill_revision table album) [
        | none ↦ rest
        | some revision ↦
            record {
              album = album;
              upload_generation = latest_generation operations album.0;
              revision = revision;
            }
            ∷ rest
      ]

  unfoldable pub missing_media_hash_backfill_targets :
      List AlbumMedia → List Operation → List MediaHashBackfillTarget
  unfolding targets_of missing_albums
  missing_media_hash_backfill_targets table operations =
      targets_of table operations (missing_albums text_leb table)
