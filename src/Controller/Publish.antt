-- ===== src/Controller/Publish.antt =====
-- `ControllerPublishVolume` and `ControllerUnpublishVolume` of pkg/gce-csi-driver/controller.go.
pub mod Devices
pub mod Changes
pub mod Attached
pub mod Detached
use compute_persistent_disk.Prelude.{
  String, Bool, true, false, not, Option, none, some, List, [], ◌∷◌, is_nil, ◌==◌, if◌then◌else◌,
}
use compute_persistent_disk.Go.Error.{
  Err, status, errorf, end, str, error, invalid_argument, already_exists, internal, Reply, respond,
  fail, status_error,
}
use compute_persistent_disk.Go.Handler.{
  Action, ◌>>=◌, ◌>>◌, give, give_if, give_error, call, run, attempt, require,
}
use compute_persistent_disk.Csi.{
  ControllerPublishVolumeRequest, ControllerUnpublishVolumeRequest, Response, response,
}
use compute_persistent_disk.Cloud.{Disk, AttachedDisk, Instance, GceCompute}
use compute_persistent_disk.Utils.{split_zone_name_id}

abbrev pub attached_in : String → List AttachedDisk → Bool
attached_in name [] = false
attached_in name (d ∷ ds) = if d.device_name == name then true else attached_in name ds

unfoldable pub disk_is_attached : Disk → Instance → Bool
disk_is_attached volume i = attached_in volume.name i.disks

-- `(attached, err)`; the first disk with the device's name decides.
abbrev pub compatible_in : String → String → List AttachedDisk → Bool × Option Err
compatible_in name read_write [] = (false, none)
compatible_in name read_write (d ∷ ds) =
    let later = compatible_in name read_write ds in
    if d.device_name == name
    then if d.mode == read_write then (true, none) else (
      true,
      some (errorf "disk mode does not match. Got %v. Want %v" (str d.mode (str read_write end))),
    )
    else later

unfoldable pub disk_is_attached_and_compatible : Disk → Instance → String → Bool × Option Err
disk_is_attached_and_compatible volume i read_write = compatible_in volume.name read_write i.disks

-- The mode of an attachment.
abbrev pub read_write_mode : Bool → String
read_write_mode readonly = if readonly then "READ_ONLY" else "READ_WRITE"

-- `if err != nil` on the result of the compatibility check.
abbrev incompatible : String → String → Option Err → Option Err
incompatible volume_name node_id none = none
incompatible volume_name node_id (some e) = some (
    status already_exists "Disk %v already published to node %v but incompatbile: %v"
      (str volume_name (str node_id (error e end))))

module _ (cloud : GceCompute) where
  open cloud use {State}

  -- `ControllerPublishVolume` from the lookup of the disk on.
  unfoldable pub publish_named :
      ControllerPublishVolumeRequest → String → String → Action State (Reply Response)
  unfolding disk_is_attached_and_compatible
  publish_named req volume_zone volume_name = run do
    disk ← attempt (cloud.get_disk_or_error volume_zone volume_name) (λ e. e)
    instance' ← attempt (cloud.get_instance_or_error volume_zone req.node_id) (λ e. e)
    let read_write = read_write_mode req.readonly
    let (attached, mismatch) = disk_is_attached_and_compatible disk instance' read_write
    give_error (incompatible volume_name req.node_id mismatch)
    give_if attached (respond response)
    let attached_disk : AttachedDisk = record {
      device_name = disk.name;
      kind = disk.kind;
      mode = read_write;
      source = cloud.get_disk_source_uri disk volume_zone;
      type = disk.type;
    }
    attach_op ←
        attempt (cloud.attach_disk volume_zone req.node_id attached_disk)
          (λ e. status internal "unknown Attach error: %v" (error e end))
    attempt (cloud.wait_for_op attach_op volume_zone)
        (λ e. status internal "unknown Attach operation error: %v" (error e end))
    give (respond response)

  unfoldable pub controller_publish_volume :
      ControllerPublishVolumeRequest → Action State (Reply Response)
  unfolding split_zone_name_id publish_named
  controller_publish_volume req = run do
    give_if (req.volume_id == "")
        (fail (status_error invalid_argument "ControllerPublishVolume Volume ID must be provided"))
    give_if (req.node_id == "")
        (fail (status_error invalid_argument "ControllerPublishVolume Node ID must be provided"))
    give_if (is_nil req.volume_capability) (
        fail (
          status_error invalid_argument
            "ControllerPublishVolume Volume capability must be provided"))
    (volume_zone, volume_name) ← require (split_zone_name_id req.volume_id) (λ e. e)
    call (publish_named req volume_zone volume_name)

  -- `ControllerUnpublishVolume` from the lookup of the disk on.
  unfoldable pub unpublish_named :
      ControllerUnpublishVolumeRequest → String → String → Action State (Reply Response)
  unfolding disk_is_attached
  unpublish_named req volume_zone volume_name = run do
    disk ← attempt (cloud.get_disk_or_error volume_zone volume_name) (λ e. e)
    instance' ← attempt (cloud.get_instance_or_error volume_zone req.node_id) (λ e. e)
    give_if (not (disk_is_attached disk instance')) (respond response)
    detach_op ←
        attempt (cloud.detach_disk volume_zone req.node_id volume_name)
          (λ e. status internal "unknown detach error: %v" (error e end))
    attempt (cloud.wait_for_op detach_op volume_zone)
        (λ e. status internal "unknown detach operation error: %v" (error e end))
    give (respond response)

  unfoldable pub controller_unpublish_volume :
      ControllerUnpublishVolumeRequest → Action State (Reply Response)
  unfolding split_zone_name_id unpublish_named
  controller_unpublish_volume req = run do
    give_if (req.volume_id == "") (
        fail (status_error invalid_argument "ControllerUnpublishVolume Volume ID must be provided"))
    give_if (req.node_id == "")
        (fail (status_error invalid_argument "ControllerUnpublishVolume Node ID must be provided"))
    (volume_zone, volume_name) ← require (split_zone_name_id req.volume_id) (λ e. e)
    call (unpublish_named req volume_zone volume_name)
