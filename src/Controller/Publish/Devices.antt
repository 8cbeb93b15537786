-- ===== src/Controller/Publish/Devices.antt =====
-- `diskIsAttached` and `diskIsAttachedAndCompatible` by the number of disks with the device name.
use compute_persistent_disk.Prelude.{◌<◌, String, true, false, ◌≡◌, ◌↔◌, none, List, [], ◌∷◌, arith}
use compute_persistent_disk.Cloud.{AttachedDisk}
use compute_persistent_disk.Cloud.Fake.Devices.{uses}
use compute_persistent_disk.Controller.Publish.{attached_in, compatible_in}

module _ (name : String) where
  pub attached_in_iff : (ds : List AttachedDisk) → (attached_in name ds ≡ true) ↔ (0 < uses name ds)
  attached_in_iff [] = ground arith
  attached_in_iff (d ∷ ds) = ground (arith, attached_in_iff ds)

  -- No disk has the name exactly when the check reports no attachment, and then it has no error.
  pub compatible_in_absent :
      (read_write : String) (ds : List AttachedDisk)
      → (compatible_in name read_write ds).0 ≡ false
      → (compatible_in name read_write ds ≡ (false, none)) × (uses name ds ≡ 0)
  compatible_in_absent read_write [] h = ground arith
  compatible_in_absent read_write (d ∷ ds) h = ground (arith, compatible_in_absent read_write ds)

  pub compatible_in_present :
      (read_write : String) (ds : List AttachedDisk)
      → (compatible_in name read_write ds).0 ≡ true
      → 0 < uses name ds
  compatible_in_present read_write [] h = ground arith
  compatible_in_present read_write (d ∷ ds) h = ground (arith, compatible_in_present read_write ds)
