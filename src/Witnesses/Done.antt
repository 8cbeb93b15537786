-- ===== src/Witnesses/Done.antt =====
-- RPCs over the cloud provider and over `GCEMounter` that succeed, and a mount that fails.
use compute_persistent_disk.Prelude.{
  true, String, ◌≡◌, ◌⊎◌, ◌++◌, refl, false, none, some, List, [], ◌∷◌,
}
use compute_persistent_disk.Go.Error.{Err, ok, err, foreign, code_of, internal, respond}
use compute_persistent_disk.Csi.{
  CreateVolumeRequest, DeleteVolumeRequest, ControllerPublishVolumeRequest,
  ControllerUnpublishVolumeRequest, NodePublishVolumeRequest, NodeStageVolumeRequest, response,
}
use compute_persistent_disk.Utils.{split_zone_name_id}
use compute_persistent_disk.Cloud.Provider.{cloud_provider}
use compute_persistent_disk.Cloud.{Disk}
use compute_persistent_disk.Cloud.Provider
use compute_persistent_disk.Controller.Create.{create_volume, apply_parameters}
use compute_persistent_disk.Controller.Create.Made.{
  answer_to, Validated, wanted, InsertDone, create-InsertDone,
}
use compute_persistent_disk.Controller.Delete.{delete_volume}
use compute_persistent_disk.Controller.Delete.Gone.{NotFound, DeleteDone, delete-DeleteDone}
use compute_persistent_disk.Controller.Publish.{
  controller_publish_volume, controller_unpublish_volume,
}
use compute_persistent_disk.Controller.Publish.Attached.{
  FoundAttached, AttachDone, wanted as wanted_attachment, publish-AttachDone,
}
use compute_persistent_disk.Controller.Publish.Detached.{
  FoundDetached, DetachDone, unpublish-DetachDone,
}
use compute_persistent_disk.Mount.{Mounter}
use compute_persistent_disk.Mount.Fake.{fake_mounter}
use compute_persistent_disk.Mount.Commands
use compute_persistent_disk.Mount.Gce
use compute_persistent_disk.Mount.Gce.{gce_mounter}
use compute_persistent_disk.Mount.Mounted
use compute_persistent_disk.Node.Bound.{Ran, bind_args, publish-Ran}
use compute_persistent_disk.Node.Unwound.{Removed, Kept, node_publish_volume-Unwound}
use compute_persistent_disk.Node.{
  node_publish_volume, node_stage_volume, mount_options, access_type_of,
}
use compute_persistent_disk.Node.Machine.{IsDeviceOf, stage-IsMounted}
use compute_persistent_disk.Witnesses.Libraries.{
  capability, service, vacant, stocked, once, once-IsPoll, willing,
}

abbrev pub create_request : CreateVolumeRequest
create_request = record {
  name = "v";
  capacity_range = none;
  volume_capabilities = capability ∷ [];
  parameters = ("type", "pd-ssd") ∷ [];
}

made :
    (create_volume (cloud_provider vacant once "p" "z") create_request 0).0
    ≡ respond (answer_to create_request "z")
unfolding create_volume Provider.insert_disk Provider.get_and_validate_existing_disk
    Provider.wait_for_op Provider.poll_condition
made = refl

create-InsertDone_example :
    let cloud = cloud_provider vacant once "p" "z" in
    let created = create_volume cloud create_request 0 in
    (disk_type zone : String) × (apply_parameters create_request.parameters "pd-standard" "z"
      ≡ ok (disk_type, zone))
    × (answer_to create_request "z" ≡ answer_to create_request zone)
    × (Validated cloud create_request disk_type zone created.1
        ⊎ InsertDone vacant "p" zone (wanted cloud create_request disk_type zone) created.1)
create-InsertDone_example =
    create-InsertDone vacant once "p" "z" create_request (answer_to create_request "z") 0
      once-IsPoll made

abbrev delete_request : DeleteVolumeRequest
delete_request = record { volume_id = "z/v" }

deleted :
    (delete_volume (cloud_provider service once "p" "z") delete_request 0).0 ≡ respond response
unfolding delete_volume Provider.delete_disk Provider.wait_for_op Provider.poll_condition
deleted = refl

delete-DeleteDone_example :
    let cloud = cloud_provider service once "p" "z" in
    let after = (delete_volume cloud delete_request 0).1 in
    ((failure : Err) × (split_zone_name_id delete_request.volume_id ≡ err failure) × (after ≡ 0))
    ⊎ ((zone name : String) × (split_zone_name_id delete_request.volume_id ≡ ok (zone, name))
        × (NotFound cloud zone name after ⊎ DeleteDone service "p" zone name after))
delete-DeleteDone_example =
    delete-DeleteDone service once "p" "z" delete_request 0 once-IsPoll deleted

abbrev pub publish_request : ControllerPublishVolumeRequest
publish_request = record {
  volume_id = "z/v";
  node_id = "n";
  readonly = false;
  volume_capability = some capability;
}

published :
    (controller_publish_volume (cloud_provider service once "p" "z") publish_request 0).0
    ≡ respond response
unfolding controller_publish_volume Provider.get_disk_or_error Provider.get_instance_or_error
    Provider.attach_disk Provider.wait_for_op Provider.poll_condition
published = refl

publish-AttachDone_example :
    let cloud = cloud_provider service once "p" "z" in
    let after = (controller_publish_volume cloud publish_request 0).1 in
    (zone name : String) × (split_zone_name_id publish_request.volume_id ≡ ok (zone, name))
    × (disk : Disk) × ((cloud.get_disk_or_error zone name 0).0 ≡ ok disk)
    × (FoundAttached cloud publish_request zone disk after
        ⊎ AttachDone service once "p" zone publish_request.node_id
            (wanted_attachment cloud publish_request zone disk)
            after)
publish-AttachDone_example =
    publish-AttachDone service once "p" "z" publish_request 0 once-IsPoll published

abbrev pub stage_request : NodeStageVolumeRequest
stage_request = record {
  volume_id = "z/v";
  staging_target_path = "/staging";
  volume_capability = some capability;
}

pub staged : (node_stage_volume (gce_mounter willing) stage_request []).0 ≡ respond response
unfolding node_stage_volume Gce.verify_device_path Commands.get_disk_by_id_paths
    Gce.is_likely_not_mount_point Gce.format_and_mount
staged = refl

stage-IsMounted_example :
    let after = (node_stage_volume (gce_mounter willing) stage_request []).1 in
    (zone volume_name device_path fstype : String) × (options : List String) × (split_zone_name_id
        stage_request.volume_id
      ≡ ok (zone, volume_name))
    × IsDeviceOf volume_name device_path
    × (mount_options (access_type_of stage_request.volume_capability) ≡ some (fstype, options))
    × Mounted.IsMounted willing device_path stage_request.staging_target_path
        (options ++ "defaults" ∷ [])
        fstype
        after
stage-IsMounted_example = stage-IsMounted willing stage_request [] staged

abbrev unpublish_request : ControllerUnpublishVolumeRequest
unpublish_request = record { volume_id = "z/v"; node_id = "n" }

unpublished :
    (controller_unpublish_volume (cloud_provider stocked once "p" "z") unpublish_request 0).0
    ≡ respond response
unfolding controller_unpublish_volume Provider.get_disk_or_error Provider.get_instance_or_error
    Provider.detach_disk Provider.wait_for_op Provider.poll_condition
unpublished = refl

unpublish-DetachDone_example :
    let cloud = cloud_provider stocked once "p" "z" in
    let after = (controller_unpublish_volume cloud unpublish_request 0).1 in
    (zone name : String) × (split_zone_name_id unpublish_request.volume_id ≡ ok (zone, name))
    × (disk : Disk) × ((cloud.get_disk_or_error zone name 0).0 ≡ ok disk)
    × (FoundDetached cloud unpublish_request zone disk after
        ⊎ DetachDone stocked once "p" zone unpublish_request.node_id name after)
unpublish-DetachDone_example =
    unpublish-DetachDone stocked once "p" "z" unpublish_request 0 once-IsPoll unpublished

abbrev target_request : NodePublishVolumeRequest
target_request = record {
  volume_id = "z/v";
  staging_target_path = "/staging";
  target_path = "/target";
  readonly = true;
  volume_capability = some capability;
}

bound : (node_publish_volume (gce_mounter willing) target_request []).0 ≡ respond response
unfolding node_publish_volume Gce.is_likely_not_mount_point Gce.do_mount
bound = refl

publish-Ran_example :
    Ran willing
      (bind_args target_request)
      (node_publish_volume (gce_mounter willing) target_request []).1
publish-Ran_example = publish-Ran willing target_request [] bound

-- No mount succeeds.
abbrev unwilling : Mounter
unwilling = record fake_mounter {
  do_mount = λ source target fstype options s. (some (foreign "exit status 32"), s);
}

node_publish_volume-Unwound_example :
    (code_of (node_publish_volume unwilling target_request tt).0 ≡ some internal)
    × (Removed unwilling target_request.target_path
          (node_publish_volume unwilling target_request tt).1
        ⊎ Kept unwilling target_request.target_path
            (node_publish_volume unwilling target_request tt).1)
node_publish_volume-Unwound_example =
    node_publish_volume-Unwound unwilling target_request (foreign "exit status 32") tt (λ h. cc)
      (λ h. cc) (λ h. cc) (λ h. cc) refl refl refl refl
