-- ===== src/Mount/Table/Devices.antt =====
-- `VerifyDevicePath` of pkg/mount-manager/mounter.go, and the mount table of the machine.
use compute_persistent_disk.Prelude.{
  String, ◌≡◌, ◌∙◌, refl, inl, inr, List, [], ◌∷◌, arith, Option-cases, Bool-cases,
}
use compute_persistent_disk.Go.Strings.{contains}
use compute_persistent_disk.Go.Error.{Answer-cases}
use compute_persistent_disk.Mount.Commands.{disk_sd_path, disk_sd_pattern}
use compute_persistent_disk.Mount.Gce.{
  Os, new_drive, first_existing, udevadm_change_to_drive, udevadm_change_to_new_drives,
  verify_device_path,
}
use compute_persistent_disk.Mount.Table.Machine.{Mounts, udevadm}

module _ (os : Os) (mounts : Mounts os) where
  open mounts use {stacks, spares, stat_keeps, glob_keeps, eval_keeps}

  first_existing_keeps :
      (paths : List String) (s : os.State) → stacks (first_existing os paths s).1 ≡ stacks s
  unfolding first_existing
  first_existing_keeps [] s = refl
  first_existing_keeps (path ∷ paths) s =
      let later = first_existing_keeps paths (os.stat path s).1 in
      ground (arith, later, stat_keeps path s)

  udevadm_change_to_drive_keeps :
      (drive_path : String) (s : os.State)
      → stacks (udevadm_change_to_drive os drive_path s).1 ≡ stacks s
  unfolding udevadm_change_to_drive
  udevadm_change_to_drive_keeps drive_path s =
      let (resolved, t) = os.eval_symlinks drive_path s in
      let same = eval_keeps drive_path s in
      elim (Answer-cases resolved) [
        | inr (failure, e) ↦ rw (e, same)
        | inl (drive, e) ↦ elim (Bool-cases (contains drive disk_sd_path)) [
          | inr n ↦ rw (e, n, same)
          | inl n ↦ rw (e, n) (spares "udevadm" _ t udevadm ∙ same)
        ]
      ]

  udevadm_change_to_new_drives_keeps :
      (before : List String) (s : os.State)
      → stacks (udevadm_change_to_new_drives os before s).1 ≡ stacks s
  unfolding udevadm_change_to_new_drives
  udevadm_change_to_new_drives_keeps before s =
      let ((found, failed), t) = os.glob disk_sd_pattern s in
      let same = glob_keeps disk_sd_pattern s in
      elim (Option-cases failed) [
        | inr (failure, e) ↦ rw (e, same)
        | inl e ↦ elim (Option-cases (new_drive before found)) [
          | inl n ↦ rw (e, n, same)
          | inr (sd, n) ↦ rw (e, n) (udevadm_change_to_drive_keeps sd t ∙ same)
        ]
      ]

  pub verify_device_path_keeps :
      (paths : List String) (s : os.State) → stacks (verify_device_path os paths s).1 ≡ stacks s
  unfolding verify_device_path
  verify_device_path_keeps paths s =
      let (seen, t) = os.glob disk_sd_pattern s in
      let u = (udevadm_change_to_new_drives os seen.0 t).1 in
      first_existing_keeps paths u
      ∙ udevadm_change_to_new_drives_keeps seen.0 t
      ∙ glob_keeps disk_sd_pattern s
