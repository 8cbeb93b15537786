-- ===== src/Cloud/Fake.antt =====
-- `FakeCloudProvider` of pkg/gce-cloud-provider/fake-gce.go: a cloud kept in two maps. The maps hold
-- pointers; each entry of the model owns what its pointer leads to, as no two entries of the
-- program share a disk or an instance.
pub mod Devices
pub mod Changes
pub mod Modes
use compute_persistent_disk.Prelude.{
  ℕ, suc, String, Bool, true, false, not, ◌&&◌, ◌||◌, Option, none, some, List, [], ◌∷◌, ◌++◌,
  get_last?, drop_last, set, ◌==◌, if◌then◌else◌,
}
use compute_persistent_disk.Prelude.Int.{ℤ, pos, leb_ℤ, eqb_ℤ}
use compute_persistent_disk.Go.Strings.{split}
use compute_persistent_disk.Go.Error.{
  Err, status, errorf, end, str, number, already_exists, Result, ok, err, panic,
}
use compute_persistent_disk.Go.Dict.{Dict, lookup, insert, erase}
use compute_persistent_disk.Go.Handler.{Action}
use compute_persistent_disk.Cloud.{Disk, AttachedDisk, Instance, Operation, GceCompute}
use compute_persistent_disk.Utils.{gb_to_bytes}

pub record FakeCloud : Type 0 where
  pub project : String
  pub zone : String
  pub disks : Dict Disk
  pub instances : Dict Instance

unfoldable pub create_fake : String → String → FakeCloud
create_fake project zone = record { project = project; zone = zone; disks = []; instances = [] }

-- `v, ok := m[name]`, or an error.
abbrev entry : {A : Type 0} → String → String → Option A → Result A
entry format name none = err (errorf format (str name end))
entry format name (some a) = ok a

unfoldable pub get_disk_or_error : String → String → Action FakeCloud (Result Disk)
unfolding lookup
get_disk_or_error volume_zone volume_name c =
    (entry "Disk %v not found" volume_name (lookup volume_name c.disks), c)

unfoldable pub last_component : String → String
unfolding split
last_component s = elim (get_last? (split b'/' s)) [ none ↦ "" | some p ↦ p ]

-- The checks of an existing disk in `GetAndValidateExistingDisk`.
unfoldable pub validate_existing : Disk → String → ℤ → ℤ → Bool × Option Err
unfolding last_component
validate_existing disk disk_type req_bytes lim_bytes =
    let size = gb_to_bytes disk.size_gb in
    let request_valid = leb_ℤ req_bytes size || eqb_ℤ req_bytes (pos 0) in
    let response_valid = leb_ℤ size lim_bytes || eqb_ℤ lim_bytes (pos 0) in
    let resp_type = last_component disk.type in
    let type_match = not (resp_type == disk_type) in
    let type_default = disk_type == "" && resp_type == "pd-standard" in
    if not request_valid || not response_valid
    then (
      true,
      some (
          status already_exists
            "Disk already exists with incompatible capacity. Need %v (Required) < %v (Existing) < %v (Limit)"
            (number req_bytes (number size (number lim_bytes end)))),
    )
    else if not type_match && not type_default
    then (
      true,
      some (
          status already_exists "Disk already exists with incompatible type. Need %v. Got %v"
            (str disk_type (str resp_type end))),
    )
    else (true, none)

abbrev pub validated : Option Disk → String → ℤ → ℤ → Bool × Option Err
validated none disk_type req_bytes lim_bytes = (false, none)
validated (some disk) disk_type req_bytes lim_bytes =
    validate_existing disk disk_type req_bytes lim_bytes

unfoldable pub get_and_validate_existing_disk :
    String → String → String → ℤ → ℤ → Action FakeCloud (Bool × Option Err)
unfolding validate_existing lookup
get_and_validate_existing_disk configured_zone name disk_type req_bytes lim_bytes c =
    (validated (lookup name c.disks) disk_type req_bytes lim_bytes, c)

-- `&compute.Operation{}`
abbrev empty_operation : Operation
empty_operation = record { name = ""; status = "" }

unfoldable pub insert_disk : String → Disk → Action FakeCloud (Result (Option Operation))
unfolding insert
insert_disk zone disk_to_create c = (
  ok (some empty_operation),
  record c { disks = insert disk_to_create.name disk_to_create c.disks },
)

unfoldable pub delete_disk : String → String → Action FakeCloud (Result (Option Operation))
unfolding erase
delete_disk zone name c = (ok (some empty_operation), record c { disks = erase name c.disks })

abbrev pub set_disks : FakeCloud → String → List AttachedDisk → FakeCloud
set_disks c name disks = record c { instances = insert name (record { disks = disks }) c.instances }

unfoldable pub attach_disk :
    String → String → AttachedDisk → Action FakeCloud (Result (Option Operation))
unfolding lookup insert
attach_disk zone instance_name attached_disk c = elim (lookup instance_name c.instances) [
  | none ↦ (err (errorf "Failed to get instance %v" (str instance_name end)), c)
  | some instance' ↦ (ok none, set_disks c instance_name (instance'.disks ++ attached_disk ∷ []))
]

-- The loop that looks for the device: its index, or `none` for -1.
unfoldable pub find_device : String → List AttachedDisk → Option ℕ
find_device name [] = none
find_device name (d ∷ ds) =
    let later = find_device name ds in
    if d.device_name == name then some 0 else elim later [ none ↦ none | some i ↦ some (suc i) ]

-- The last disk takes the place of the one found, and the list is cut by one. At -1 the access
-- panics.
unfoldable pub remove_found : Option ℕ → List AttachedDisk → Option (List AttachedDisk)
remove_found none ds = none
remove_found (some i) ds = elim (get_last? ds) [
  | none ↦ none
  | some d ↦ some (drop_last (set ds i d))
]

unfoldable pub detach_disk : String → String → String → Action FakeCloud (Result (Option Operation))
unfolding lookup insert find_device remove_found
detach_disk volume_zone instance_name volume_name c = elim (lookup instance_name c.instances) [
  | none ↦ (err (errorf "Failed to get instance %v" (str instance_name end)), c)
  | some instance' ↦ elim (remove_found (find_device volume_name instance'.disks) instance'.disks) [
    | none ↦ (panic, c)
    | some disks ↦ (ok none, set_disks c instance_name disks)
  ]
]

unfoldable pub insert_instance : Instance → String → FakeCloud → FakeCloud
unfolding insert
insert_instance i instance_name c = record c { instances = insert instance_name i c.instances }

unfoldable pub get_instance_or_error : String → String → Action FakeCloud (Result Instance)
unfolding lookup
get_instance_or_error instance_zone instance_name c =
    (entry "Could not find instance %v" instance_name (lookup instance_name c.instances), c)

abbrev pub fake_cloud : GceCompute
fake_cloud = record {
  State = FakeCloud;
  get_project = λ c. (ok c.project, c);
  get_zone = λ c. (ok c.zone, c);
  get_disk_or_error = get_disk_or_error;
  get_and_validate_existing_disk = get_and_validate_existing_disk;
  insert_disk = insert_disk;
  delete_disk = delete_disk;
  attach_disk = attach_disk;
  detach_disk = detach_disk;
  get_disk_source_uri = λ disk zone. "";
  get_disk_type_uri = λ zone disk_type. "";
  get_instance_or_error = get_instance_or_error;
  wait_for_op = λ op zone c. (ok tt, c);
}
