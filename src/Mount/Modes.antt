-- ===== src/Mount/Modes.antt =====
-- `matchDiskMode` of pkg/mount-manager/mount-utils.go, which the node service does not call, beside the
-- comparison of modes by which the controller service answers whether an attachment is compatible.
use compute_persistent_disk.Prelude.{
  String, Bool, true, false, not, ◌&&◌, ◌||◌, ◌≡◌, ◌⊎◌, ◌↔◌, inl, inr, refl, none, ◌∷◌, List, arith,
  ◌==◌, eq_iff, if◌then◌else◌,
}
use compute_persistent_disk.Cloud.{AttachedDisk}
use compute_persistent_disk.Controller.Publish.{read_write_mode, compatible_in}

unfoldable pub match_disk_mode : AttachedDisk → Bool → Bool
match_disk_mode disk readonly =
    if disk.mode == "READ_ONLY" && not readonly || disk.mode == "READ_WRITE" && readonly
    then false
    else true

same : (x : String) → (x == x) ≡ true
same x = (eq_iff x x).1 refl

-- For an attachment in one of the two modes, the first of its name, the controller finds no fault
-- exactly when `matchDiskMode` holds.
pub match_disk_mode-compatible_in_iff :
    (d : AttachedDisk) (ds : List AttachedDisk) (readonly : Bool)
    → (d.mode ≡ "READ_ONLY") ⊎ (d.mode ≡ "READ_WRITE")
    → ((compatible_in d.device_name (read_write_mode readonly) (d ∷ ds)).1 ≡ none)
      ↔ (match_disk_mode d readonly ≡ true)
unfolding match_disk_mode
match_disk_mode-compatible_in_iff d ds true (inl e) = rw (e, same d.device_name) (ground arith)
match_disk_mode-compatible_in_iff d ds true (inr e) = rw (e, same d.device_name) (ground arith)
match_disk_mode-compatible_in_iff d ds false (inl e) = rw (e, same d.device_name) (ground arith)
match_disk_mode-compatible_in_iff d ds false (inr e) = rw (e, same d.device_name) (ground arith)
