-- ===== src/Witnesses/Machine.antt =====
-- The cloud provider, the mounters and the metadata at concrete answers.
use compute_persistent_disk.Prelude.{
  String, ◌≡◌, ◌⊎◌, refl, Option, none, some, List, [], ◌∷◌, ◌==◌, if◌then◌else◌,
}
use compute_persistent_disk.Go.Error.{Err, foreign, ok, answer, code_of, already_exists}
use compute_persistent_disk.Witnesses.Libraries.{capability, operation, ssd, service, once, server}
use compute_persistent_disk.Csi.{CreateVolumeRequest}
use compute_persistent_disk.Cloud.Provider.{
  cloud_provider, wait_for_op, poll_condition, op_is_done, last_component,
}
use compute_persistent_disk.Cloud.Metadata.{get_project_and_zone_from_metadata}
use compute_persistent_disk.Controller.Create.{create_volume, apply_parameters}
use compute_persistent_disk.Controller.Create.Existing.{create_volume_same_type}
use compute_persistent_disk.Mount.Gce.{Os, get_disk_format, format_and_mount}
use compute_persistent_disk.Mount.Format.{checked, tried, looked, format_and_mount-formatted}

waited : (wait_for_op service once "p" (some operation) "z" 0).0 ≡ ok tt
unfolding wait_for_op poll_condition op_is_done
waited = refl

abbrev create_request : CreateVolumeRequest
create_request = record {
  name = "v";
  capacity_range = none;
  volume_capabilities = capability ∷ [];
  parameters = ("type", "pd-ssd") ∷ [];
}

parameters_applied :
    apply_parameters create_request.parameters "pd-standard" "z" ≡ ok ("pd-ssd", "z")
unfolding apply_parameters
parameters_applied = refl

ssd_type : last_component ssd.type ≡ "pd-ssd"
unfolding last_component
ssd_type = refl

create_volume_same_type_example :
    let answered = create_volume (cloud_provider service once "p" "z") create_request 0 in
    (code_of answered.0 ≡ some already_exists) × (answered.1 ≡ 1)
create_volume_same_type_example =
    create_volume_same_type service once "p" "z" create_request "pd-ssd" "z" ssd 0 1 (λ h. cc) refl
      parameters_applied refl ssd_type (λ h. cc)

-- lsblk finds a format, and mount fails. The state holds the commands, the last one first.
abbrev result_of : String → String × Option Err
result_of command =
    if command == "lsblk"
    then ("xfs\n", none)
    else if command == "mount"
    then ("", some (foreign "exit status 32"))
    else ("", none)

abbrev machine : Os
machine = record {
  State = List String;
  stat = λ path s. (answer 1, s);
  lstat = λ path s. (answer 1, s);
  mkdir_all = λ path perm s. (none, s);
  remove = λ path s. (none, s);
  exec_run = λ command args s. (result_of command, command ∷ s);
  glob = λ pattern s. (([], none), s);
  eval_symlinks = λ path s. (answer path, s);
}

xfs_found :
    (get_disk_format machine "/dev/sdb" (tried machine "/dev/sdb" "/mnt" "ext4" [] [])).0
    ≡ answer "xfs"
unfolding get_disk_format
xfs_found = refl

format_and_mount-formatted_example :
    let after = (format_and_mount machine "/dev/sdb" "/mnt" "ext4" [] []).1 in
    (after ≡ checked machine "/dev/sdb" "/mnt" "ext4" [] [])
    ⊎ (after ≡ tried machine "/dev/sdb" "/mnt" "ext4" [] [])
    ⊎ (after ≡ looked machine "/dev/sdb" "/mnt" "ext4" [] [])
format_and_mount-formatted_example =
    format_and_mount-formatted machine "/dev/sdb" "/mnt" "ext4" [] [] "xfs" xfs_found (λ h. cc)

project_and_zone : (get_project_and_zone_from_metadata server 0).0 ≡ answer ("p", "z")
unfolding get_project_and_zone_from_metadata
project_and_zone = refl
