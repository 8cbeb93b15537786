-- ===== src/Mount/Gce.antt =====
-- `GCEMounter` of pkg/mount-manager/mounter.go and mount-utils.go, over the operating system, which
-- is a parameter: files, commands, and the time in between.
use compute_persistent_disk.Prelude.{
  ℕ, String, ◌<>◌, Bool, true, false, not, ◌||◌, Option, none, some, List, [], ◌∷◌, ◌++◌, nat_eq,
  ◌==◌, if◌then◌else◌,
}
use compute_persistent_disk.Go.Strings.{contains, join}
use compute_persistent_disk.Go.Error.{
  Err, errorf, end, str, error, Answer, answer, refused, is_not_exist,
}
use compute_persistent_disk.Go.Handler.{
  Action, Body, next, ◌>>=◌, ◌>>◌, give, give_if, give_some, call, drop, run,
}
use compute_persistent_disk.Mount.{Mounter}
use compute_persistent_disk.Mount.Commands.{
  make_mount_args, disk_sd_path, disk_sd_pattern, default_mount_command, disk_format, fsck_error,
  mkfs_args, get_disk_by_id_paths,
}

-- `os.Stat` and `os.Lstat` give the number of the device that a file lies on. A command gives its
-- combined output and its error.
pub record Os : Type 1 where
  pub State : Type 0
  pub stat : String → Action State (Answer ℕ)
  pub lstat : String → Action State (Answer ℕ)
  pub mkdir_all : String → ℕ → Action State (Option Err)
  pub remove : String → Action State (Option Err)
  pub exec_run : String → List String → Action State (String × Option Err)
  pub glob : String → Action State (List String × Option Err)
  pub eval_symlinks : String → Action State (Answer String)

abbrev holds : List String → String → Bool
holds [] x = false
holds (y ∷ ys) x = if y == x then true else holds ys x

-- The first drive that the set before does not hold.
abbrev pub new_drive : List String → List String → Option String
new_drive before [] = none
new_drive before (sd ∷ sds) =
    let later = new_drive before sds in if holds before sd then later else some sd

module _ (os : Os) where
  open os use {State}

  -- A body goes on with a value, or returns the error.
  abbrev or_error : {R A : Type 0} → (Err → R) → Answer A → Body State R A
  or_error f (answer a) = λ s. (next a, s)
  or_error f (refused e) = give (f e)

  unfoldable pub is_likely_not_mount_point : String → Action State (Bool × Option Err)
  is_likely_not_mount_point file = run do
    stat ← call (os.stat file)
    dev ← or_error (λ e. (true, some e)) stat
    root_stat ← call (os.lstat (file <> "/.."))
    root_dev ← or_error (λ e. (true, some e)) root_stat
    give (nat_eq dev root_dev, none)

  unfoldable pub unmount_volume : String → Action State (String × Option Err)
  unmount_volume target_path s = os.exec_run "umount" (target_path ∷ []) s

  abbrev mount_error : List String → String → Option Err → Option Err
  mount_error mount_args output none = none
  mount_error mount_args output (some e) = some (
      errorf "mount failed: %v\nMounting command: %s\nMounting arguments: %s\nOutput: %s"
        (error e (str default_mount_command (str (join " " mount_args) (str output end)))))

  unfoldable pub do_mount : String → String → String → List String → Action State (Option Err)
  unfolding make_mount_args join
  do_mount source target fstype options = run do
    let mount_args = make_mount_args source target fstype options
    (output, e) ← call (os.exec_run default_mount_command mount_args)
    give (mount_error mount_args output e)

  -- `getDiskFormat`
  unfoldable pub get_disk_format : String → Action State (Answer String)
  unfolding disk_format
  get_disk_format disk = run do
    (output, e) ← call (os.exec_run "lsblk" ("-n" ∷ "-o" ∷ "FSTYPE" ∷ disk ∷ []))
    give (elim e [ none ↦ answer (disk_format output) | some e ↦ refused e ])

  -- What `FormatAndMount` does when the disk has no format.
  abbrev pub format_and_retry :
      String → String → String → List String → Body State (Option Err) (Option Err)
  format_and_retry source target fstype options = do
    let fs : String = if fstype == "" then "ext4" else fstype
    (_, e) ← call (os.exec_run ("mkfs." <> fs) (mkfs_args source fs))
    elim e [ none ↦ call (do_mount source target fs options) | some e ↦ give (some e) ]

  -- What it returns when the disk has a format and the mount failed.
  abbrev formatted_error : String → String → Err → Err
  formatted_error fstype existing mount_err =
      if fstype == "" || fstype == existing
      then mount_err
      else errorf "failed to mount the volume as %q, it already contains %s. Mount error: %v"
          (str fstype (str existing (error mount_err end)))

  -- What it does when the first mount failed.
  abbrev pub recover_mount :
      String → String → String → List String → Err → Body State (Option Err) (Option Err)
  recover_mount source target fstype options mount_err = do
    found ← call (get_disk_format source)
    existing ← or_error (λ e. some e) found
    if existing == ""
        then format_and_retry source target fstype options
        else give (some (formatted_error fstype existing mount_err))

  unfoldable pub format_and_mount :
      String → String → String → List String → Action State (Option Err)
  unfolding do_mount get_disk_format fsck_error mkfs_args
  format_and_mount source target fstype options = run do
    let with_defaults = options ++ "defaults" ∷ []
    (out, e) ← call (os.exec_run "fsck" ("-a" ∷ source ∷ []))
    give_some (fsck_error source out e)
    mount_err ← call (do_mount source target fstype with_defaults)
    elim mount_err [
      | none ↦ give none
      | some e ↦ recover_mount source target fstype with_defaults e
    ]

  -- `pathExists`
  abbrev exists_of : Answer ℕ → Answer Bool
  exists_of (answer dev) = answer true
  exists_of (refused e) = if is_not_exist e then answer false else refused e

  unfoldable pub path_exists : String → Action State (Answer Bool)
  path_exists path s = let (stat, s') = os.stat path s in (exists_of stat, s')

  -- `udevadmChangeToDrive`
  unfoldable pub udevadm_change_to_drive : String → Action State (Option Err)
  unfolding contains
  udevadm_change_to_drive drive_path = run do
    resolved ← call (os.eval_symlinks drive_path)
    drive ←
        or_error
          (λ e. some (
            errorf "udevadmChangeToDrive: filepath.EvalSymlinks(%q) failed with %v."
              (str drive_path (error e end))))
          resolved
    give_if (not (contains drive disk_sd_path)) (
        some (
          errorf "udevadmChangeToDrive: expected input in the form \"%s\" but drive is %q."
            (str disk_sd_pattern (str drive end))))
    (_, e) ← call (
        os.exec_run "udevadm"
          ("trigger" ∷ "--action=change" ∷ ("--property-match=DEVNAME=" <> drive) ∷ []))
    give (elim e [
      | none ↦ none
      | some e ↦ some (
          errorf "udevadmChangeToDrive: udevadm trigger failed for drive %q with %v."
            (str drive (error e end)))
    ])

  -- `udevadmChangeToNewDrives`
  unfoldable pub udevadm_change_to_new_drives : List String → Action State (Option Err)
  unfolding udevadm_change_to_drive
  udevadm_change_to_new_drives before = run do
    (after, e) ← call (os.glob disk_sd_pattern)
    give_some (elim e [
      | none ↦ none
      | some e ↦
          some (errorf "Error filepath.Glob(\"%s\"): %v\r\n" (str disk_sd_pattern (error e end)))
    ])
    elim (new_drive before after) [ none ↦ give none | some sd ↦ call (udevadm_change_to_drive sd) ]

  -- The loop of `VerifyDevicePath`: the first path that exists, or the empty text.
  unfoldable pub first_existing : List String → Action State (Answer String)
  unfolding path_exists
  first_existing [] s = (answer "", s)
  first_existing (path ∷ paths) s =
      let (found, s') = path_exists path s in
      let later = first_existing paths s' in
      elim found [
        | answer b ↦ if b then (answer path, s') else later
        | refused e ↦ (refused (errorf "Error checking if path exists: %v" (error e end)), s')
      ]

  -- The errors of the first two calls are logged, and no more.
  unfoldable pub verify_device_path : List String → Action State (Answer String)
  unfolding udevadm_change_to_new_drives first_existing
  verify_device_path device_paths = run do
    (sd_before, _) ← call (os.glob disk_sd_pattern)
    drop (udevadm_change_to_new_drives sd_before)
    call (first_existing device_paths)

-- `GCEMounter` as a `Mounter`.
abbrev pub gce_mounter : Os → Mounter
gce_mounter os = record {
  State = os.State;
  do_mount = do_mount os;
  format_and_mount = format_and_mount os;
  is_likely_not_mount_point = is_likely_not_mount_point os;
  unmount_volume = unmount_volume os;
  get_disk_by_id_paths = get_disk_by_id_paths;
  verify_device_path = verify_device_path os;
  mkdir_all = os.mkdir_all;
  remove = os.remove;
}

-- `&GCEMounter{}`, a struct without fields, and `CreateMounter`.
pub data GceMounter : Type 0 where
  empty_mounter : GceMounter

unfoldable pub create_mounter : Answer GceMounter
create_mounter = answer empty_mounter
