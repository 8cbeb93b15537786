-- ===== src/Controller/Capabilities.antt =====
-- `ValidateVolumeCapabilities` of pkg/gce-csi-driver/controller.go, and the RPCs of that file that
-- keep no state.
use compute_persistent_disk.Prelude.{
  Bool, true, false, none, some, List, [], ◌∷◌, is_empty, ◌==◌, if◌then◌else◌,
}
use compute_persistent_disk.Prelude.Int.{eqb_ℤ}
use compute_persistent_disk.Go.Error.{
  status, end, number, invalid_argument, unimplemented, Reply, reply, panicked, respond, fail,
  status_error,
}
use compute_persistent_disk.Csi.{
  Mode, AccessMode, VolumeCapability, ValidateVolumeCapabilitiesRequest,
  ValidateVolumeCapabilitiesResponse, Response,
}

-- The modes that the driver supports, and the capabilities that are asked for. The access mode of
-- a capability is a pointer: to read the mode of a nil one panics.
abbrev has_mode : List AccessMode → Mode → Bool
has_mode [] mode = false
has_mode (m ∷ ms) mode = if eqb_ℤ m.mode mode then true else has_mode ms mode

unfoldable pub check_capabilities :
    List AccessMode → List VolumeCapability → Reply ValidateVolumeCapabilitiesResponse
check_capabilities vcap [] = respond (record { supported = true; message = none })
check_capabilities vcap (c ∷ cs) =
    let later = check_capabilities vcap cs in
    elim c.access_mode [
      | none ↦ panicked
      | some am ↦
          if has_mode vcap am.mode
          then later
          else reply (some (record { supported = false; message = some am.mode }))
              (some (status invalid_argument "Driver does not support mode:" (number am.mode end)))
    ]

-- The first argument is the `vcap` of the driver.
unfoldable pub validate_volume_capabilities :
    List AccessMode → ValidateVolumeCapabilitiesRequest → Reply ValidateVolumeCapabilitiesResponse
unfolding check_capabilities
validate_volume_capabilities vcap req =
    if req.volume_id == ""
    then fail (status_error invalid_argument "ControllerUnpublishVolume Volume ID must be provided")
    else if is_empty req.volume_capabilities
    then fail (
        status_error invalid_argument
          "ControllerUnpublishVolume Volume Capabilities must be provided")
    else check_capabilities vcap req.volume_capabilities

unfoldable pub list_volumes : Reply Response
list_volumes = fail (status_error unimplemented "")

unfoldable pub get_capacity : Reply Response
get_capacity = fail (status_error unimplemented "")
