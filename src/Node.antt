-- ===== src/Node.antt =====
-- pkg/gce-csi-driver/node.go: the RPCs of the node service, over a `Mounter`.
pub mod Mounted
pub mod Staged
pub mod Unwound
pub mod Bound
pub mod Machine
pub mod Service
use compute_persistent_disk.Prelude.{
  String, Bool, true, false, not, Option, none, some, List, [], ◌∷◌, is_nil, ◌==◌, if◌then◌else◌,
}
use compute_persistent_disk.Go.Error.{
  Err, status, errorf, end, str, strs, error, invalid_argument, internal, unimplemented, Answer,
  answer, refused, is_not_exist, Reply, reply, respond, fail, status_error,
}
use compute_persistent_disk.Go.Handler.{
  Action, Body, next, ◌>>=◌, ◌>>◌, give, give_if, give_error, call, drop, run, require,
}
use compute_persistent_disk.Csi.{
  AccessType, mount, block, VolumeCapability, NodePublishVolumeRequest, NodeUnpublishVolumeRequest,
  NodeStageVolumeRequest, NodeUnstageVolumeRequest, Response, response,
}
use compute_persistent_disk.Mount.{Mounter}
use compute_persistent_disk.Utils.{split_zone_name_id}

abbrev missing : String → Reply Response
missing message = fail (status_error invalid_argument message)

-- The error of a check, unless it says that the path does not exist.
abbrev pub but_not_exist : Option Err → Option Err
but_not_exist none = none
but_not_exist (some e) = if is_not_exist e then none else some e

-- The file system and the options for a capability, or the reply for one of a block device.
abbrev pub mount_options : Option AccessType → Option (String × List String)
mount_options none = some ("ext4", [])
mount_options (some (mount fs_type flags)) = some (if fs_type == "" then "ext4" else fs_type, flags)
mount_options (some block) = none

abbrev pub access_type_of : Option VolumeCapability → Option AccessType
access_type_of none = none
access_type_of (some c) = c.access_type

module _ (mounter : Mounter) where
  open mounter use {State}

  abbrev mount_failed : Err → Reply Response
  mount_failed e = fail (status internal "TODO: %v" (error e end))

  -- A path that is a mount point after a mount that failed is unmounted.
  abbrev unmount_again : String → Err → Bool → Body State (Reply Response) (Unit {0})
  unmount_again target_path e true = λ s. (next tt, s)
  unmount_again target_path e false = do
    (output, unmount_err) ← call (mounter.unmount_volume target_path)
    give_if (not (is_nil unmount_err)) (mount_failed e)
    (not_mnt, mnt_err) ← call (mounter.is_likely_not_mount_point target_path)
    give_if (not (is_nil mnt_err)) (mount_failed e)
    give_if (not not_mnt) (mount_failed e)

  -- What `NodePublishVolume` does with the result of the mount.
  abbrev pub publish_result : String → Option Err → Body State (Reply Response) (Reply Response)
  publish_result target_path none = give (respond response)
  publish_result target_path (some e) = do
    (not_mnt, mnt_err) ← call (mounter.is_likely_not_mount_point target_path)
    give_if (not (is_nil mnt_err)) (mount_failed e)
    unmount_again target_path e not_mnt
    drop (mounter.remove target_path)
    give (mount_failed e)

  -- The end of `NodePublishVolume`, on a target that is no mount point.
  abbrev pub bind_target : NodePublishVolumeRequest → Body State (Reply Response) (Reply Response)
  bind_target req = do
    made ← call (mounter.mkdir_all req.target_path 0o750)
    give_error made
    let options : List String = if req.readonly then "bind" ∷ "ro" ∷ [] else "bind" ∷ []
    mounted ← call (mounter.do_mount req.staging_target_path req.target_path "ext4" options)
    publish_result req.target_path mounted

  -- A target that is a mount point already is answered by a nil response and a nil error.
  abbrev pub check_target : NodePublishVolumeRequest → Body State (Reply Response) (Reply Response)
  check_target req = do
    (not_mnt, e) ← call (mounter.is_likely_not_mount_point req.target_path)
    give_error (but_not_exist e)
    give_if (not not_mnt) (reply none none)
    bind_target req

  unfoldable pub node_publish_volume : NodePublishVolumeRequest → Action State (Reply Response)
  node_publish_volume req = run do
    give_if (req.volume_id == "") (missing "NodePublishVolume Volume ID must be provided")
    give_if (req.staging_target_path == "")
        (missing "NodePublishVolume Staging Target Path must be provided")
    give_if (req.target_path == "") (missing "NodePublishVolume Target Path must be provided")
    give_if (is_nil req.volume_capability)
        (missing "NodePublishVolume Volume Capability must be provided")
    check_target req

  -- The ends of `NodeUnpublishVolume` and of `NodeUnstageVolume`.
  abbrev pub unpublish_target :
      NodeUnpublishVolumeRequest → Body State (Reply Response) (Reply Response)
  unpublish_target req = do
    (output, e) ← call (mounter.unmount_volume req.target_path)
    give (elim e [
      | none ↦ respond response
      | some e ↦ fail (
          status internal "Unmount failed: %v\nUnmounting arguments: %s\nOutput: %s\n"
            (error e (str req.target_path (str output end))))
    ])

  unfoldable pub node_unpublish_volume : NodeUnpublishVolumeRequest → Action State (Reply Response)
  node_unpublish_volume req = run do
    give_if (req.volume_id == "") (missing "NodeUnpublishVolume Volume ID must be provided")
    give_if (req.target_path == "") (missing "NodeUnpublishVolume Target Path must be provided")
    unpublish_target req

  -- `devicePath, err := VerifyDevicePath(devicePaths)`, and the two checks behind it.
  abbrev device_found : String → List String → Answer String → Body State (Reply Response) String
  device_found volume_name device_paths (refused e) = give (
      fail (
        status internal "Error verifying GCE PD (%q) is attached: %v"
          (str volume_name (error e end))))
  device_found volume_name device_paths (answer path) =
      if path == ""
      then give (
          fail (
            status internal "Unable to find device path out of attempted paths: %v"
              (strs device_paths end)))
      else λ s. (next path, s)

  -- Part 2 of `NodeStageVolume`: whether the staging path is no mount point. A path that does not
  -- exist is made.
  abbrev pub staging_checked : String → Bool → Option Err → Body State (Reply Response) Bool
  staging_checked path not_mnt none = λ s. (next not_mnt, s)
  staging_checked path not_mnt (some e) =
      if is_not_exist e
      then (do
        made ← call (mounter.mkdir_all path 0o750)
        give_error (elim made [
          | none ↦ none
          | some e ↦
              some (status internal "Failed to create directory (%q): %v" (str path (error e end)))
        ])
        (λ s. (next true, s)))
      else give (
          fail (
            status internal "Unknown error when checking mount point (%q): %v"
              (str path (error e end))))

  -- Part 3: the device is mounted on the staging path.
  abbrev pub stage_device :
      NodeStageVolumeRequest
      → String
      → Option (String × List String)
      → Body State (Reply Response) (Reply Response)
  stage_device req device_path none =
      give (fail (status_error unimplemented "Block volume support is not yet implemented"))
  stage_device req device_path (some (fstype, options)) = do
    e ← call (mounter.format_and_mount device_path req.staging_target_path fstype options)
    give (elim e [
      | none ↦ respond response
      | some e ↦ fail (
          status internal
            "Failed to format and mount device from (%q) to (%q) with fstype (%q) and options (%q): %v"
            (str device_path
              (str req.staging_target_path (str fstype (strs options (error e end))))))
    ])

  -- `NodeStageVolume` from Part 2 on, for the path of the device.
  abbrev pub stage_at :
      NodeStageVolumeRequest → String → Body State (Reply Response) (Reply Response)
  stage_at req device_path = do
    (likely, e) ← call (mounter.is_likely_not_mount_point req.staging_target_path)
    not_mnt ← staging_checked req.staging_target_path likely e
    give_if (not not_mnt) (fail (errorf "already a mount point" end))
    stage_device req device_path (mount_options (access_type_of req.volume_capability))

  -- `NodeStageVolume` from Part 1 on, for the name of the volume.
  abbrev pub stage_named :
      NodeStageVolumeRequest → String → Body State (Reply Response) (Reply Response)
  stage_named req volume_name = do
    let device_paths = mounter.get_disk_by_id_paths volume_name ""
    verified ← call (mounter.verify_device_path device_paths)
    device_path ← device_found volume_name device_paths verified
    stage_at req device_path

  unfoldable pub node_stage_volume : NodeStageVolumeRequest → Action State (Reply Response)
  unfolding split_zone_name_id
  node_stage_volume req = run do
    give_if (req.volume_id == "") (missing "NodeStageVolume Volume ID must be provided")
    give_if (req.staging_target_path == "")
        (missing "NodeStageVolume Staging Target Path must be provided")
    give_if (is_nil req.volume_capability)
        (missing "NodeStageVolume Volume Capability must be provided")
    (_, volume_name) ← require (split_zone_name_id req.volume_id) (λ e. e)
    stage_named req volume_name

  abbrev pub unstage_target :
      NodeUnstageVolumeRequest → Body State (Reply Response) (Reply Response)
  unstage_target req = do
    (_, e) ← call (mounter.unmount_volume req.staging_target_path)
    give (elim e [
      | none ↦ respond response
      | some e ↦ fail (
          status internal "NodeUnstageVolume failed to unmount at path %s: %v"
            (str req.staging_target_path (error e end)))
    ])

  unfoldable pub node_unstage_volume : NodeUnstageVolumeRequest → Action State (Reply Response)
  node_unstage_volume req = run do
    give_if (req.volume_id == "") (missing "NodeUnstageVolume Volume ID must be provided")
    give_if (req.staging_target_path == "")
        (missing "NodeUnstageVolume Staging Target Path must be provided")
    unstage_target req
