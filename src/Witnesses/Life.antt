-- ===== src/Witnesses/Life.antt =====
-- A volume that is made, attached and staged.
use compute_persistent_disk.Prelude.{String, ◌≡◌, ◌⊎◌, ◌++◌, refl, some, List, [], ◌∷◌}
use compute_persistent_disk.Go.Error.{ok, respond}
use compute_persistent_disk.Csi.{response}
use compute_persistent_disk.Utils.{combine_volume_id}
use compute_persistent_disk.Volume.{stage-create, publish-create}
use compute_persistent_disk.Cloud.Provider.{cloud_provider}
use compute_persistent_disk.Cloud.{Disk}
use compute_persistent_disk.Cloud.Provider
use compute_persistent_disk.Controller.Create.{create_volume}
use compute_persistent_disk.Controller.Create.Made.{answer_to}
use compute_persistent_disk.Controller.Publish.{controller_publish_volume}
use compute_persistent_disk.Controller.Publish.Attached.{
  FoundAttached, AttachDone, wanted as wanted_attachment,
}
use compute_persistent_disk.Mount.Gce.{gce_mounter}
use compute_persistent_disk.Mount.Mounted
use compute_persistent_disk.Node.{node_stage_volume, mount_options, access_type_of}
use compute_persistent_disk.Node.Machine.{IsDeviceOf}
use compute_persistent_disk.Witnesses.Libraries.{growing, once, once-IsPoll, willing}
use compute_persistent_disk.Witnesses.Done.{create_request, publish_request, stage_request, staged}

grown :
    (create_volume (cloud_provider growing once "p" "z") create_request 0).0
    ≡ respond (answer_to create_request "z")
unfolding create_volume Provider.insert_disk Provider.get_and_validate_existing_disk
    Provider.wait_for_op Provider.poll_condition
grown = refl

published_then :
    (controller_publish_volume (cloud_provider growing once "p" "z") publish_request 3).0
    ≡ respond response
unfolding controller_publish_volume Provider.get_disk_or_error Provider.get_instance_or_error
    Provider.attach_disk Provider.wait_for_op Provider.poll_condition
published_then = refl

same_id : stage_request.volume_id ≡ (answer_to create_request "z").id
unfolding combine_volume_id
same_id = refl

stage-create_example :
    let after = (node_stage_volume (gce_mounter willing) stage_request []).1 in
    (device_path fstype : String) × (options : List String) × IsDeviceOf create_request.name
      device_path
    × (mount_options (access_type_of stage_request.volume_capability) ≡ some (fstype, options))
    × Mounted.IsMounted willing device_path stage_request.staging_target_path
        (options ++ "defaults" ∷ [])
        fstype
        after
stage-create_example =
    stage-create (cloud_provider growing once "p" "z") willing create_request
      (answer_to create_request "z") 0 stage_request [] grown same_id staged

publish-create_example :
    let cloud = cloud_provider growing once "p" "z" in
    let after = (controller_publish_volume cloud publish_request 3).1 in
    (zone : String) × (disk : Disk) × ((answer_to create_request "z").id
      ≡ combine_volume_id zone create_request.name)
    × ((cloud.get_disk_or_error zone create_request.name 3).0 ≡ ok disk)
    × (FoundAttached cloud publish_request zone disk after
        ⊎ AttachDone growing once "p" zone publish_request.node_id
            (wanted_attachment cloud publish_request zone disk)
            after)
publish-create_example =
    publish-create growing once "p" "z" create_request (answer_to create_request "z") 0 3
      publish_request once-IsPoll grown same_id published_then
