-- ===== src/Mount/Table/Gce.antt =====
-- `GCEMounter` of pkg/mount-manager over a machine, as a mount table.
use compute_persistent_disk.Prelude.{
  ℕ, String, ◌<>◌, Bool, true, ◌≡◌, ◌∙◌, sym, subst, inl, inr, Option, none, some, nat_eq, List,
  arith,
}
use compute_persistent_disk.Go.Error.{Err, not_exist, Answer, answer, refused, Answer-cases}
use compute_persistent_disk.Mount.Gce.{Os, is_likely_not_mount_point, unmount_volume, gce_mounter}
use compute_persistent_disk.Mount.Table.{CheckedAs, told, absent, unknown, Takes, MountTable}
use compute_persistent_disk.Mount.Table.Machine.{
  Mounts, LooksAs, devices, no_file, no_stat, no_root,
}
use compute_persistent_disk.Mount.Table.Formats.{do_mount_adds, format_and_mount_adds}
use compute_persistent_disk.Mount.Table.Devices.{verify_device_path_keeps}

-- The answer of `IsLikelyNotMountPoint` for the two answers.
abbrev check_of : Answer ℕ → Answer ℕ → Bool × Option Err
check_of (refused e) root = (true, some e)
check_of (answer dev) (refused e) = (true, some e)
check_of (answer dev) (answer root_dev) = (nat_eq dev root_dev, none)

check_of-CheckedAs :
    {stack : List Bool} {stat root : Answer ℕ}
    → LooksAs stack stat root
    → CheckedAs stack (check_of stat root)
check_of-CheckedAs (devices n dev root_dev h) = subst (λ b. CheckedAs n (b, none)) (sym h) (told n)
check_of-CheckedAs (no_file (answer root_dev)) = absent not_exist
check_of-CheckedAs (no_file (refused e)) = absent not_exist
check_of-CheckedAs (no_stat n e root h) = unknown n true e h
check_of-CheckedAs (no_root n dev e h) = unknown n true e h

is_likely_not_mount_point-check_of :
    (os : Os) (file : String) (s : os.State)
    → (is_likely_not_mount_point os file s).0
      ≡ check_of (os.stat file s).0 (os.lstat (file <> "/..") (os.stat file s).1).0
unfolding is_likely_not_mount_point
is_likely_not_mount_point-check_of os file s = ground arith

module _ (os : Os) (mounts : Mounts os) where
  open mounts use {place, known, stacks, looks, umount, stat_keeps, lstat_keeps}

  pub check_tells :
      (file : String) (s : os.State)
      → known file ≡ true
      → CheckedAs (stacks s (place file)) (is_likely_not_mount_point os file s).0
  check_tells file s k =
      subst (CheckedAs (stacks s (place file))) (sym (is_likely_not_mount_point-check_of os file s))
        (check_of-CheckedAs (looks file s k))

  pub check_keeps :
      (file : String) (s : os.State) → stacks (is_likely_not_mount_point os file s).1 ≡ stacks s
  unfolding is_likely_not_mount_point
  check_keeps file s =
      let t = (os.stat file s).1 in
      elim (Answer-cases (os.stat file s).0) [
        | inr (failure, e) ↦ rw e (stat_keeps file s)
        | inl (dev, e) ↦ elim (Answer-cases (os.lstat (file <> "/..") t).0) [
          | inr (failure, f) ↦ rw (e, f) (lstat_keeps (file <> "/..") t ∙ stat_keeps file s)
          | inl (root_dev, f) ↦ rw (e, f) (lstat_keeps (file <> "/..") t ∙ stat_keeps file s)
        ]
      ]

  pub unmount_volume-Takes :
      (target : String) (s : os.State)
      → known target ≡ true
      → Takes
          (place target)
          (stacks s)
          (unmount_volume os target s).0.1
          (stacks (unmount_volume os target s).1)
  unfolding unmount_volume
  unmount_volume-Takes target s k = umount target s k

  abbrev pub gce_mounter_table : MountTable (gce_mounter os)
  gce_mounter_table = record {
    place = place;
    stacks = stacks;
    plain = mounts.plain;
    known = known;
    bind_is_plain = mounts.bind_is_plain;
    check_tells = check_tells;
    check_keeps = check_keeps;
    mount_adds = do_mount_adds os mounts;
    format_adds = format_and_mount_adds os mounts;
    unmount_takes = unmount_volume-Takes;
    verify_keeps = verify_device_path_keeps os mounts;
    mkdir_keeps = mounts.mkdir_keeps;
    remove_keeps = mounts.remove_keeps;
  }
