-- ===== src/Volume.antt =====
-- A volume across the driver's services: the ID that `CreateVolume` of
-- pkg/gce-csi-driver/controller.go answers is what `ControllerPublishVolume` and
-- `NodeStageVolume` of node.go are given.
use compute_persistent_disk.Prelude.{
  ◌⊎◌, String, ◌≡◌, subst, ap, ◌∙◌, List, ◌++◌, [], ◌∷◌, arith, ◌==◌, Bool-cases, inl, inr,
  is_empty, some,
}
use compute_persistent_disk.Go.Error.{ok, respond, is_ok, is_err, is_panic, Outcome-of}
use compute_persistent_disk.Csi.{
  CreateVolumeRequest, CreateVolumeResponse, ControllerPublishVolumeRequest, NodeStageVolumeRequest,
  response,
}
use compute_persistent_disk.Utils.{split_zone_name_id, combine_volume_id}
use compute_persistent_disk.Utils.VolumeId.{split-combine_unique}
use compute_persistent_disk.Controller.Create.{create_volume, apply_parameters}
use compute_persistent_disk.Controller.Create.Made.{provision-reached}
use compute_persistent_disk.Cloud.{Disk, GceCompute}
use compute_persistent_disk.Cloud.Poll.{Poll, IsPoll}
use compute_persistent_disk.Cloud.Provider.{ComputeService, cloud_provider}
use compute_persistent_disk.Controller.Publish.{controller_publish_volume}
use compute_persistent_disk.Controller.Publish.Attached.{
  FoundAttached, AttachDone, wanted, publish-AttachDone,
}
use compute_persistent_disk.Mount.Gce.{Os, gce_mounter}
use compute_persistent_disk.Mount.Mounted
use compute_persistent_disk.Node.{node_stage_volume, mount_options, access_type_of}
use compute_persistent_disk.Node.Machine.{IsDeviceOf, stage-IsMounted}

-- The ID that is answered is made of the name of the request.
create_volume-id :
    (cloud : GceCompute) (req : CreateVolumeRequest) (resp : CreateVolumeResponse) (s : cloud.State)
    → (create_volume cloud req s).0 ≡ respond resp
    → (zone : String) × (resp.id ≡ combine_volume_id zone req.name)
unfolding create_volume
create_volume-id cloud req resp s h =
    let (default_zone, t) = cloud.get_zone s in
    elim (Bool-cases (req.name == "")) [
      | inl a ↦ absurd (ground arith)
      | inr a ↦ elim (Bool-cases (is_empty req.volume_capabilities)) [
        | inl b ↦ absurd (ground arith)
        | inr b ↦ elim (Outcome-of default_zone) [
          | is_panic c ↦ absurd (ground arith)
          | is_err failure c ↦ absurd (ground arith)
          | is_ok given c ↦
              elim (Outcome-of (apply_parameters req.parameters "pd-standard" given)) [
                | is_panic d ↦ absurd (ground arith)
                | is_err failure d ↦ absurd (ground arith)
                | is_ok (disk_type, zone) d ↦
                    let (said, _) =
                      provision-reached cloud req disk_type zone resp t (ground arith) in
                    (zone, ap (λ (r : CreateVolumeResponse). r.id) said)
              ]
        ]
      ]
    ]

-- Over any cloud and any machine: where `CreateVolume` answers a response and no error, and
-- `NodeStageVolume` over `GCEMounter` is given the ID of that response and answers one and no
-- error, the last command of the machine was a mount of one of the two by-id paths of a disk of
-- the name that was created, whatever the name, on the staging path; it succeeded, and had the
-- options of the capability with `defaults` and its file system, or ext4 where that is empty.
pub stage-create :
    (cloud : GceCompute) (os : Os) (made : CreateVolumeRequest) (resp : CreateVolumeResponse)
    (s : cloud.State) (staged : NodeStageVolumeRequest) (t : os.State)
    → (create_volume cloud made s).0 ≡ respond resp
    → staged.volume_id ≡ resp.id
    → (node_stage_volume (gce_mounter os) staged t).0 ≡ respond response
    → (device_path fstype : String) × (options : List String) × IsDeviceOf made.name device_path
      × (mount_options (access_type_of staged.volume_capability) ≡ some (fstype, options))
      × Mounted.IsMounted os device_path staged.staging_target_path
          (options ++ "defaults" ∷ [])
          fstype
          (node_stage_volume (gce_mounter os) staged t).1
stage-create cloud os made resp s staged t created same answered =
    let (zone, id) = create_volume-id cloud made resp s created in
    let (z, n, device_path, fstype, options, split, is_device, chosen, mounted) =
      stage-IsMounted os staged t answered in
    let (_, named) =
      split-combine_unique zone made.name
        (subst (λ i. split_zone_name_id i ≡ ok (z, n)) (same ∙ id) split) in
    (
      device_path,
      fstype,
      options,
      subst (λ name. IsDeviceOf name device_path) named is_device,
      chosen,
      mounted,
    )

-- Over the cloud provider, where the polling is as documented: where `CreateVolume` answers a
-- response and no error, and `ControllerPublishVolume`, in any state, is given the ID of that
-- response and answers one and no error, its first GET answered the disk of the name that was
-- created, whatever the name, in the zone of the ID, and its last call was either the GET of an
-- instance that has that disk already, in the mode that is asked for, or the GET of the operation
-- of the attachment of that disk to the node in that mode, with the status DONE.
pub publish-create :
    (svc : ComputeService) (poll : Poll svc.State) (project default_zone : String)
    (made : CreateVolumeRequest) (resp : CreateVolumeResponse) (s t : svc.State)
    (req : ControllerPublishVolumeRequest)
    → IsPoll poll
    → let cloud = cloud_provider svc poll project default_zone in
      let published = controller_publish_volume cloud req t in
      (create_volume cloud made s).0 ≡ respond resp
      → req.volume_id ≡ resp.id
      → published.0 ≡ respond response
      → (zone : String) × (disk : Disk) × (resp.id ≡ combine_volume_id zone made.name)
        × ((cloud.get_disk_or_error zone made.name t).0 ≡ ok disk)
        × (FoundAttached cloud req zone disk published.1
            ⊎ AttachDone svc poll project zone req.node_id (wanted cloud req zone disk) published.1)
publish-create svc poll project default_zone made resp s t req law created same answered =
    let cloud = cloud_provider svc poll project default_zone in
    let published = controller_publish_volume cloud req t in
    let (zone, id) = create_volume-id cloud made resp s created in
    let (z, n, split, disk, found, last) =
      publish-AttachDone svc poll project default_zone req t law answered in
    let (zoned, named) =
      split-combine_unique zone made.name
        (subst (λ i. split_zone_name_id i ≡ ok (z, n)) (same ∙ id) split) in
    (
      zone,
      disk,
      id,
      subst (λ (p : String × String). (cloud.get_disk_or_error p.0 p.1 t).0 ≡ ok disk)
          (λ k. (zoned k, named k)) found,
      subst
          (λ zone.
            FoundAttached cloud req zone disk published.1
            ⊎ AttachDone svc poll project zone req.node_id (wanted cloud req zone disk) published.1)
          zoned last,
    )
