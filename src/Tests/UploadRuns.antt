-- ===== src/Tests/UploadRuns.antt =====
-- Three uploads that ask for a place.
use wanderbound.Prelude.{ℕ, ◌-◌, ◌≤◌, ◌≡◌, refl, arith, Bool, true, false, List, [], ◌∷◌}
use wanderbound.Uploads.{Disk, reserved_bytes, upload_capacity_slot}
use wanderbound.Uploads.Admission.{admit, reserved_bytes-admit}

abbrev disk : ℕ → Disk
disk free = record { total = 1000; free = free; max_storage_bytes = 300; min_disk_free_bytes = 100 }

abbrev requests : List (Bool × Disk × ℕ)
requests = (true, disk 900, 50) ∷ (false, disk 800, 10) ∷ (true, disk 250, 100) ∷ []

admit-run : admit 200 (100 ∷ []) requests ≡ 50 ∷ 100 ∷ []
unfolding upload_capacity_slot
admit-run = refl

reserved_bytes-admit_example : reserved_bytes 200 (admit 200 (100 ∷ []) requests) ≤ 1000 - 400
unfolding reserved_bytes
reserved_bytes-admit_example =
    reserved_bytes-admit 200 1000 400 (100 ∷ []) requests
      (refl, refl, (refl, refl, (refl, refl, tt))) (omega arith)
