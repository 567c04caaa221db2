-- ===== src/Uploads.antt =====
-- Which uploads are let in: backend/app/logic/uploads/capacity.py. The sizes in bytes are exact
-- integers. The limits are constants of other files, and stand as parameters.
pub mod Admission
use wanderbound.Prelude.{
  ℕ, ◌+◌, ◌-◌, Bool, true, false, ◌&&◌, List, [], ◌∷◌, ◌++◌, leb, if◌then◌else◌,
}

module _ (max_archive_uncompressed_bytes : ℕ) where
  unfoldable pub reserved_bytes : List ℕ → ℕ
  reserved_bytes [] = 0
  reserved_bytes (size ∷ sizes) = size + max_archive_uncompressed_bytes + reserved_bytes sizes

  unfoldable pub has_upload_capacity : ℕ → ℕ → List ℕ → ℕ → Bool
  unfolding reserved_bytes
  has_upload_capacity workspace_bytes free_bytes active_upload_sizes new_upload_size =
      let requested = new_upload_size + max_archive_uncompressed_bytes in
      leb (reserved_bytes active_upload_sizes + requested) workspace_bytes
      && leb requested free_bytes

-- the settings and the disk, as they are when an upload asks for a place
pub record Disk : Type 0 where
  pub total : ℕ
  pub free : ℕ
  pub max_storage_bytes : ℕ
  pub min_disk_free_bytes : ℕ

-- `max(0, …)` of the code is the subtraction that stops at 0.
unfoldable pub upload_capacity_slot : ℕ → Bool → Disk → List ℕ → ℕ → Bool
unfolding has_upload_capacity
upload_capacity_slot max_archive_uncompressed_bytes acquired disk active_sizes new_upload_size =
    if acquired
    then has_upload_capacity max_archive_uncompressed_bytes
        (disk.total - disk.max_storage_bytes - disk.min_disk_free_bytes)
        (disk.free - disk.min_disk_free_bytes) active_sizes new_upload_size
    else false
