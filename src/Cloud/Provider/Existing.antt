-- ===== src/Cloud/Provider/Existing.antt =====
-- When `GetAndValidateExistingDisk` of the cloud provider takes an existing disk for the one that is
-- asked for.
use compute_persistent_disk.Prelude.{String, ◌≡◌, ◌≢◌, ◌↔◌, ◌⊎◌, none, arith, eq_iff}
use compute_persistent_disk.Prelude.Int.{ℤ, pos, ◌≤ℤ◌}
use compute_persistent_disk.Utils.{gb_to_bytes}
use compute_persistent_disk.Cloud.{Disk}
use compute_persistent_disk.Cloud.Provider.{validate_existing, last_component}

-- The cloud provider accepts an existing disk exactly when neither of the required bytes and the
-- limit is 0, the disk lies between them, and its type is another than the one asked for, or is
-- `pd-standard` where the one asked for is empty.
pub validate_existing_iff :
    (disk : Disk) (disk_type : String) (req_bytes lim_bytes : ℤ)
    → ((validate_existing disk disk_type req_bytes lim_bytes).1 ≡ none) ↔ (
        (req_bytes ≢ pos 0)
        × (lim_bytes ≢ pos 0)
        × (req_bytes ≤ℤ gb_to_bytes disk.size_gb)
        × (gb_to_bytes disk.size_gb ≤ℤ lim_bytes)
        × ((last_component disk.type ≢ disk_type)
            ⊎ ((disk_type ≡ "") × (last_component disk.type ≡ "pd-standard"))))
unfolding validate_existing
validate_existing_iff disk disk_type req_bytes lim_bytes = ground (
  arith,
  eq_iff (last_component disk.type) disk_type,
  eq_iff disk_type "",
  eq_iff (last_component disk.type) "pd-standard",
)
