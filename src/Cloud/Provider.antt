-- ===== src/Cloud/Provider.antt =====
-- `CloudProvider` of pkg/gce-cloud-provider/gce.go and gce-compute.go, over the generated client of
-- the compute API and `wait.Poll`, which are parameters.
pub mod Existing
pub mod Wait
pub mod TypeUri
use compute_persistent_disk.Prelude.{
  ℕ, ◌*◌, String, ◌<>◌, Bool, true, false, not, ◌&&◌, ◌||◌, Option, none, some, get_last?, ◌==◌,
  if◌then◌else◌,
}
use compute_persistent_disk.Prelude.Int.{ℤ, pos, leb_ℤ, eqb_ℤ}
use compute_persistent_disk.Go.Strings.{split}
use compute_persistent_disk.Go.Error.{
  Err, status, end, str, number, error, already_exists, not_found, internal, Result, ok, err, panic,
  Answer, answer, refused,
}
use compute_persistent_disk.Go.Handler.{Action}
use compute_persistent_disk.Cloud.{
  Disk, AttachedDisk, Instance, Operation, GceCompute, is_gce_error,
}
use compute_persistent_disk.Cloud.Poll.{Poll, second}
use compute_persistent_disk.Utils.{gb_to_bytes}

-- `compute.Service`. The first argument of each call is the project, the second the zone.
pub record ComputeService : Type 1 where
  pub State : Type 0
  pub base_path : String
  pub disks_get : String → String → String → Action State (Answer Disk)
  pub disks_insert : String → String → Disk → Action State (Answer Operation)
  pub disks_delete : String → String → String → Action State (Answer Operation)
  pub instances_get : String → String → String → Action State (Answer Instance)
  pub instances_attach_disk :
      String → String → String → AttachedDisk → Action State (Answer Operation)
  pub instances_detach_disk : String → String → String → String → Action State (Answer Operation)
  pub zone_operations_get : String → String → String → Action State (Answer Operation)

-- `Split` returns at least one piece, so that the other case does not arise.
abbrev pub or_empty : Option String → String
or_empty none = ""
or_empty (some p) = p

-- What follows the last slash.
unfoldable pub last_component : String → String
unfolding split
last_component s = or_empty (get_last? (split b'/' s))

-- The checks of an existing disk in `GetAndValidateExistingDisk`.
unfoldable pub validate_existing : Disk → String → ℤ → ℤ → Bool × Option Err
unfolding last_component
validate_existing disk disk_type req_bytes lim_bytes =
    let size = gb_to_bytes disk.size_gb in
    let request_valid = leb_ℤ req_bytes size && not (eqb_ℤ req_bytes (pos 0)) in
    let response_valid = leb_ℤ size lim_bytes && not (eqb_ℤ lim_bytes (pos 0)) in
    let resp_type = last_component disk.type in
    let type_match = not (resp_type == disk_type) in
    let type_default = disk_type == "" && resp_type == "pd-standard" in
    if not request_valid || not response_valid
    then (
      true,
      some (
          status already_exists
            "Disk already exists with incompatible capacity. Need %v (Required) < %v (Existing) < %v (Limit)"
            (number req_bytes (number size (number lim_bytes end)))),
    )
    else if not type_match && not type_default
    then (
      true,
      some (
          status already_exists "Disk already exists with incompatible type. Need %v. Got %v"
            (str disk_type (str resp_type end))),
    )
    else (true, none)

unfoldable pub op_is_done : Option Operation → Bool
op_is_done none = false
op_is_done (some op) = op.status == "DONE"

-- The answer of a call that the provider passes on.
abbrev passed_on : Answer Operation → Result (Option Operation)
passed_on (answer op) = ok (some op)
passed_on (refused e) = err e

-- The answer of a GET: an error is told apart by its reason.
abbrev looked_up : {A : Type 0} → String → String → String → Answer A → Result A
looked_up missing unknown name (answer a) = ok a
looked_up missing unknown name (refused e) =
    if is_gce_error e "notFound"
    then err (status not_found missing (str name end))
    else err (status internal unknown (error e end))

module _ (svc : ComputeService) (poll : Poll svc.State) (project : String) where
  open svc use {State}

  unfoldable pub get_disk_or_error : String → String → Action State (Result Disk)
  unfolding is_gce_error
  get_disk_or_error volume_zone volume_name s =
      let (a, s') = svc.disks_get project volume_zone volume_name s in
      (looked_up "disk %v does not exist" "unknown disk GET error: %v" volume_name a, s')

  abbrev validated : Answer Disk → String → ℤ → ℤ → Bool × Option Err
  validated (answer disk) disk_type req_bytes lim_bytes =
      validate_existing disk disk_type req_bytes lim_bytes
  validated (refused e) disk_type req_bytes lim_bytes = (false, none)

  unfoldable pub get_and_validate_existing_disk :
      String → String → String → ℤ → ℤ → Action State (Bool × Option Err)
  unfolding validate_existing
  get_and_validate_existing_disk configured_zone name disk_type req_bytes lim_bytes s =
      let (a, s') = svc.disks_get project configured_zone name s in
      (validated a disk_type req_bytes lim_bytes, s')

  unfoldable pub insert_disk : String → Disk → Action State (Result (Option Operation))
  insert_disk zone disk_to_create s =
      let (a, s') = svc.disks_insert project zone disk_to_create s in (passed_on a, s')

  unfoldable pub delete_disk : String → String → Action State (Result (Option Operation))
  delete_disk zone name s = let (a, s') = svc.disks_delete project zone name s in (passed_on a, s')

  unfoldable pub attach_disk :
      String → String → AttachedDisk → Action State (Result (Option Operation))
  attach_disk zone instance_name attached_disk s =
      let (a, s') = svc.instances_attach_disk project zone instance_name attached_disk s in
      (passed_on a, s')

  unfoldable pub detach_disk : String → String → String → Action State (Result (Option Operation))
  detach_disk volume_zone instance_name volume_name s =
      let (a, s') = svc.instances_detach_disk project volume_zone instance_name volume_name s in
      (passed_on a, s')

  unfoldable pub get_instance_or_error : String → String → Action State (Result Instance)
  unfolding is_gce_error
  get_instance_or_error instance_zone instance_name s =
      let (a, s') = svc.instances_get project instance_zone instance_name s in
      (looked_up "instance %v does not exist" "unknown instance GET error: %v" instance_name a, s')

  abbrev observed : Answer Operation → Bool × Option Err
  observed (answer poll_op) = (op_is_done (some poll_op), none)
  observed (refused e) = (false, some e)

  -- The condition that `WaitForOp` polls.
  unfoldable pub poll_condition : Operation → String → Action State (Bool × Option Err)
  unfolding op_is_done
  poll_condition op zone s =
      let (a, s') = svc.zone_operations_get project zone op.name s in (observed a, s')

  -- The condition reads the name of the operation, which is a panic if it is nil.
  unfoldable pub wait_for_op : Option Operation → String → Action State (Result (Unit {0}))
  unfolding poll_condition
  wait_for_op none zone s = (panic, s)
  wait_for_op (some op) zone s =
      let (e, s') = poll (3 * second) (5 * 60 * second) (poll_condition op zone) s in
      (elim e [ none ↦ ok tt | some e ↦ err e ], s')

abbrev gce_compute_api_endpoint : String
gce_compute_api_endpoint = "https://www.googleapis.com/compute/v1/"

-- The two URI templates with their arguments: a project, a zone, and the name of a disk or of a type.
abbrev disk_source_uri_single_zone : String → String → String → String
disk_source_uri_single_zone project zone name =
    project <> ("/zones/" <> (zone <> ("/disks/" <> name)))

abbrev disk_type_uri_single_zone : String → String → String → String
disk_type_uri_single_zone project zone disk_type =
    "projects/" <> (project <> ("/zones/" <> (zone <> ("/diskTypes/" <> disk_type))))

-- `GetDiskSourceURI`; the base path is that of `cloud.service`, if there is one.
unfoldable pub get_disk_source_uri : Option String → String → Disk → String → String
get_disk_source_uri service project disk zone =
    let projects_api_endpoint : String = elim service [
      | none ↦ gce_compute_api_endpoint <> "projects/"
      | some base_path ↦ base_path
    ] in
    projects_api_endpoint <> disk_source_uri_single_zone project zone disk.name

unfoldable pub get_disk_type_uri : String → String → String → String
get_disk_type_uri project zone disk_type = disk_type_uri_single_zone project zone disk_type

abbrev get_project : {S : Type 0} → String → Action S (Result String)
get_project project s = (ok project, s)

abbrev get_zone : {S : Type 0} → String → Action S (Result String)
get_zone zone s = (ok zone, s)

-- `CloudProvider` as a `GCECompute`.
abbrev pub cloud_provider : (svc : ComputeService) → Poll svc.State → String → String → GceCompute
cloud_provider svc poll project zone = record {
  State = svc.State;
  get_project = get_project project;
  get_zone = get_zone zone;
  get_disk_or_error = get_disk_or_error svc poll project;
  get_and_validate_existing_disk = get_and_validate_existing_disk svc poll project;
  insert_disk = insert_disk svc poll project;
  delete_disk = delete_disk svc poll project;
  attach_disk = attach_disk svc poll project;
  detach_disk = detach_disk svc poll project;
  get_disk_source_uri = get_disk_source_uri (some svc.base_path) project;
  get_disk_type_uri = get_disk_type_uri project;
  get_instance_or_error = get_instance_or_error svc poll project;
  wait_for_op = wait_for_op svc poll project;
}
