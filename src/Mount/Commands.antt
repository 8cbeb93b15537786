-- ===== src/Mount/Commands.antt =====
-- The arguments and the outputs of the commands that pkg/mount-manager runs, and its device paths.
use compute_persistent_disk.Prelude.{
  ℕ, String, ◌<>◌, not, ◌||◌, Option, none, some, List, [], ◌∷◌, ◌++◌, is_empty, map, nat_eq, ◌==◌,
  if◌then◌else◌,
}
use compute_persistent_disk.Go.Path.{clean_onto}
use compute_persistent_disk.Go.Strings.{split, join, trim_suffix}
use compute_persistent_disk.Go.Error.{Err, errorf, exit_error, end, str}

-- `makeMountArgs`: [-t $fstype] [-o $options] [$source] $target
unfoldable pub make_mount_args : String → String → String → List String → List String
unfolding join
make_mount_args source target fstype options =
    let typed : List String = if not (fstype == "") then "-t" ∷ fstype ∷ [] else [] in
    let opted : List String = if not (is_empty options) then "-o" ∷ join "," options ∷ [] else [] in
    let sourced : List String = if not (source == "") then source ∷ [] else [] in
    typed ++ (opted ++ (sourced ++ target ∷ []))

-- What `getDiskFormat` makes of the lines of the output of lsblk. `Split` returns at least one.
abbrev format_of_lines : List String → String
format_of_lines [] = ""
format_of_lines (l ∷ []) = l
format_of_lines (l ∷ m ∷ ls) = if not (l == "") then l else "unknown data, probably partitions"

unfoldable pub disk_format : String → String
unfolding split trim_suffix
disk_format output = format_of_lines (split b'\n' (trim_suffix b'\n' output))

abbrev pub disk_by_id_path : String
disk_by_id_path = "/host/dev/disk/by-id/"

abbrev disk_google_prefix : String
disk_google_prefix = "google-"

abbrev disk_scsi_google_prefix : String
disk_scsi_google_prefix = "scsi-0Google_PersistentDisk_"

abbrev disk_partition_suffix : String
disk_partition_suffix = "-part"

abbrev pub disk_sd_path : String
disk_sd_path = "/host/dev/sd"

abbrev pub disk_sd_pattern : String
disk_sd_pattern = "/host/dev/sd*"

abbrev fsck_errors_corrected : ℕ
fsck_errors_corrected = 1

abbrev fsck_errors_uncorrected : ℕ
fsck_errors_uncorrected = 4

abbrev pub default_mount_command : String
default_mount_command = "mount"

-- What `FormatAndMount` makes of the error of fsck: a failure, or it goes on.
unfoldable pub fsck_error : String → String → Option Err → Option Err
fsck_error source out (some (exit_error status)) =
    if nat_eq status fsck_errors_corrected
    then none
    else if nat_eq status fsck_errors_uncorrected
    then some (
        errorf "'fsck' found errors on device %s but could not correct them: %s."
          (str source (str out end)))
    else none
fsck_error source out _ = none

-- The arguments of mkfs.
unfoldable pub mkfs_args : String → String → List String
mkfs_args source fstype =
    if fstype == "ext4" || fstype == "ext3" then "-F" ∷ source ∷ [] else source ∷ []

-- `path.Join(base, name)` for a rooted base and a name that is not empty.
unfoldable pub path_join : String → String → String
unfolding split join
path_join base name = "/" <> join "/" (clean_onto [] (split b'/' (base <> ("/" <> name))))

unfoldable pub get_disk_by_id_paths : String → String → List String
unfolding path_join
get_disk_by_id_paths pd_name partition =
    let device_paths : List String =
      path_join disk_by_id_path (disk_google_prefix <> pd_name)
      ∷ path_join disk_by_id_path (disk_scsi_google_prefix <> pd_name)
      ∷ [] in
    if not (partition == "")
    then map (λ path. path <> (disk_partition_suffix <> partition)) device_paths
    else device_paths
