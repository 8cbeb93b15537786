-- ===== src/Cloud.antt =====
-- pkg/gce-cloud-provider: the resources of the compute API that the driver uses, the interface
-- `GCECompute` by which the controller reaches them, and the classification of API errors.
pub mod Poll
pub mod Provider
pub mod Connect
pub mod Fake
pub mod Metadata
use compute_persistent_disk.Prelude.{
  String, Bool, true, false, Option, none, some, List, [], ◌∷◌, ◌==◌, if◌then◌else◌,
}
use compute_persistent_disk.Prelude.Int.{ℤ}
use compute_persistent_disk.Go.Error.{Err, api, Result}
use compute_persistent_disk.Go.Handler.{Action}

pub record Disk : Type 0 where
  pub name : String
  pub size_gb : ℤ
  pub description : String
  pub type : String
  pub kind : String

pub record AttachedDisk : Type 0 where
  pub device_name : String
  pub kind : String
  pub mode : String
  pub source : String
  pub type : String

pub record Instance : Type 0 where
  pub disks : List AttachedDisk

pub record Operation : Type 0 where
  pub name : String
  pub status : String

-- The methods take no context: the driver passes it on and reads nothing of it. An operation is a
-- pointer, which may be nil.
pub record GceCompute : Type 1 where
  pub State : Type 0
  pub get_project : Action State (Result String)
  pub get_zone : Action State (Result String)
  pub get_disk_or_error : String → String → Action State (Result Disk)
  pub get_and_validate_existing_disk :
      String → String → String → ℤ → ℤ → Action State (Bool × Option Err)
  pub insert_disk : String → Disk → Action State (Result (Option Operation))
  pub delete_disk : String → String → Action State (Result (Option Operation))
  pub attach_disk : String → String → AttachedDisk → Action State (Result (Option Operation))
  pub detach_disk : String → String → String → Action State (Result (Option Operation))
  pub get_disk_source_uri : Disk → String → String
  pub get_disk_type_uri : String → String → String
  pub get_instance_or_error : String → String → Action State (Result Instance)
  pub wait_for_op : Option Operation → String → Action State (Result (Unit {0}))

abbrev has_reason : List String → String → Bool
has_reason [] reason = false
has_reason (r ∷ rs) reason = if r == reason then true else has_reason rs reason

-- Whether the error is a `*googleapi.Error` with the given reason.
unfoldable pub is_gce_error : Err → String → Bool
is_gce_error (api reasons) reason = has_reason reasons reason
is_gce_error _ reason = false
