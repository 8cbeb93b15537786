-- ===== src/Mount.antt =====
-- pkg/mount-manager: the interface `Mounter`, by which the node service reaches the machine.
pub mod Commands
pub mod Gce
pub mod Format
pub mod Mounted
pub mod Device
pub mod Fake
pub mod Modes
pub mod Table
use compute_persistent_disk.Prelude.{ℕ, String, Bool, Option, List}
use compute_persistent_disk.Go.Error.{Err, Answer}
use compute_persistent_disk.Go.Handler.{Action}

pub record Mounter : Type 1 where
  pub State : Type 0
  -- source, target, file system type, options
  pub do_mount : String → String → String → List String → Action State (Option Err)
  pub format_and_mount : String → String → String → List String → Action State (Option Err)
  pub is_likely_not_mount_point : String → Action State (Bool × Option Err)
  pub unmount_volume : String → Action State (String × Option Err)
  pub get_disk_by_id_paths : String → String → List String
  pub verify_device_path : List String → Action State (Answer String)
  pub mkdir_all : String → ℕ → Action State (Option Err)
  pub remove : String → Action State (Option Err)
