-- ===== src/Uploads/Admission.antt =====
-- The admission of uploads that ask one after another.
use wanderbound.Prelude.{
  ℕ, ◌+◌, ◌-◌, ◌≤◌, ◌≡◌, arith, Bool, true, List, [], ◌∷◌, if◌then◌else◌, Bool-cases, inl, inr,
}
use wanderbound.Uploads.{reserved_bytes, Disk, upload_capacity_slot}

-- The uploads are asked about one after another, each at its own state of the lock and the disk;
-- those that are let in are active from then on.
abbrev pub admit : ℕ → List ℕ → List (Bool × Disk × ℕ) → List ℕ
admit archive active [] = active
admit archive active ((acquired, disk, size) ∷ requests) =
    admit archive
      (if upload_capacity_slot archive acquired disk active size then size ∷ active else active)
      requests

-- the requests see a disk of the given size and settings
abbrev pub OnDisk : ℕ → ℕ → List (Bool × Disk × ℕ) → Type 0
OnDisk total kept [] = Unit
OnDisk total kept ((acquired, disk, size) ∷ requests) =
    (disk.total ≡ total)
    × (kept ≡ disk.max_storage_bytes + disk.min_disk_free_bytes)
    × OnDisk total kept requests

slot_fits :
    (archive : ℕ) (acquired : Bool) (disk : Disk) (active : List ℕ) (size : ℕ)
    → upload_capacity_slot archive acquired disk active size ≡ true
    → reserved_bytes archive (size ∷ active)
      ≤ disk.total - (disk.max_storage_bytes + disk.min_disk_free_bytes)
unfolding upload_capacity_slot reserved_bytes
slot_fits archive acquired disk active size h = ground arith

-- However many uploads ask, in whatever order: the bytes that are reserved for the active ones,
-- with room to unpack each, fit on the disk beside the storage and the free space that are kept, if
-- they did at the start.
pub reserved_bytes-admit :
    (archive total kept : ℕ) (active : List ℕ) (requests : List (Bool × Disk × ℕ))
    → OnDisk total kept requests
    → reserved_bytes archive active ≤ total - kept
    → reserved_bytes archive (admit archive active requests) ≤ total - kept
reserved_bytes-admit archive total kept active [] on h = h
reserved_bytes-admit archive total kept active ((acquired, disk, size) ∷ requests) on h =
    reserved_bytes-admit archive total kept
      (if upload_capacity_slot archive acquired disk active size then size ∷ active else active)
      requests on.2
      (elim (Bool-cases (upload_capacity_slot archive acquired disk active size)) [
        | inl admitted ↦
            rw admitted
              (ground (arith, slot_fits archive acquired disk active size admitted, on.0, on.1))
        | inr refused ↦ rw refused h
      ])
