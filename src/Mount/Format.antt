-- ===== src/Mount/Format.antt =====
-- When `FormatAndMount` of pkg/mount-manager/mounter.go makes a file system.
use compute_persistent_disk.Prelude.{String, ◌≡◌, ◌≢◌, ◌⊎◌, [], ◌∷◌, ◌++◌, List, arith, eq_iff}
use compute_persistent_disk.Go.Error.{answer}
use compute_persistent_disk.Mount.Gce.{Os, do_mount, get_disk_format, format_and_mount}

module _ (os : Os) (source target fstype : String) (options : List String) (s : os.State) where
  -- The machine after fsck, and after the first attempt to mount.
  abbrev pub checked : os.State
  checked = (os.exec_run "fsck" ("-a" ∷ source ∷ []) s).1

  abbrev pub tried : os.State
  tried = (do_mount os source target fstype (options ++ "defaults" ∷ []) checked).1

  abbrev pub looked : os.State
  looked = (get_disk_format os source tried).1

  -- Where lsblk, after fsck and the first attempt to mount, would find a format, the machine is
  -- left as it was after fsck, after that attempt, or after lsblk: `FormatAndMount` runs no other
  -- command, and no mkfs.
  pub format_and_mount-formatted :
      (existing : String)
      → (get_disk_format os source tried).0 ≡ answer existing
      → existing ≢ ""
      → let after = (format_and_mount os source target fstype options s).1 in
        (after ≡ checked) ⊎ (after ≡ tried) ⊎ (after ≡ looked)
  unfolding format_and_mount
  format_and_mount-formatted existing h n = ground (arith, eq_iff existing "")
