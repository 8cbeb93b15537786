-- ===== src/Witnesses/Mounts.antt =====
-- A volume that is staged, published and taken down on a machine that is a mount table.
use compute_persistent_disk.Prelude.{true, false, ◌≡◌, refl, some, List, [], ◌∷◌}
use compute_persistent_disk.Csi.{
  NodePublishVolumeRequest, NodeUnpublishVolumeRequest, NodeUnstageVolumeRequest,
}
use compute_persistent_disk.Mount.Commands
use compute_persistent_disk.Mount.Gce
use compute_persistent_disk.Mount.Gce.{gce_mounter}
use compute_persistent_disk.Node.{
  node_publish_volume, node_unpublish_volume, node_stage_volume, node_unstage_volume,
}
use compute_persistent_disk.Node.Service.{
  NodeRpc, stage, publish, unpublish, unstage, accepted, already, failed,
}
use compute_persistent_disk.Node.Service.Refines.{serve_all, ServedRun, serve_all_refines}
use compute_persistent_disk.Node.Service.Flat.{IsFlat, serve_all-IsFlat}
use compute_persistent_disk.Witnesses.Libraries.{capability}
use compute_persistent_disk.Witnesses.Done.{stage_request}
use compute_persistent_disk.Witnesses.Tabled.{Tabled, tabled, tabled_mounts}

abbrev publish_request : NodePublishVolumeRequest
publish_request = record {
  volume_id = "z/v";
  staging_target_path = "/staging";
  target_path = "/target";
  volume_capability = some capability;
  readonly = true;
}

abbrev unpublish_request : NodeUnpublishVolumeRequest
unpublish_request = record { volume_id = "z/v"; target_path = "/target" }

abbrev unstage_request : NodeUnstageVolumeRequest
unstage_request = record { volume_id = "z/v"; staging_target_path = "/staging" }

abbrev pub rpcs : List NodeRpc
rpcs =
    stage stage_request
    ∷ publish publish_request
    ∷ publish publish_request
    ∷ stage stage_request
    ∷ unpublish unpublish_request
    ∷ unpublish unpublish_request
    ∷ unstage unstage_request
    ∷ []

-- Nothing is mounted, and the disk is blank.
abbrev pub bare : Tabled
bare = (λ path. [], false)

verdicts :
    (serve_all (gce_mounter tabled) rpcs bare).0
    ≡ accepted ∷ accepted ∷ already ∷ failed ∷ accepted ∷ failed ∷ accepted ∷ []
unfolding serve_all node_stage_volume node_publish_volume node_unpublish_volume node_unstage_volume
    Gce.verify_device_path Commands.get_disk_by_id_paths Gce.is_likely_not_mount_point
    Gce.format_and_mount Gce.unmount_volume
verdicts = refl

serve_all_refines_example :
    ServedRun
      (λ path. path)
      bare.0
      rpcs
      (serve_all (gce_mounter tabled) rpcs bare).0
      (serve_all (gce_mounter tabled) rpcs bare).1.0
serve_all_refines_example = serve_all_refines tabled tabled_mounts rpcs bare refl

serve_all-IsFlat_example : IsFlat (serve_all (gce_mounter tabled) rpcs bare).1.0
serve_all-IsFlat_example = serve_all-IsFlat tabled tabled_mounts rpcs bare refl (λ place. refl)

-- Nothing is staged where the volume is first published.
abbrev unstaged : List NodeRpc
unstaged =
    publish publish_request
    ∷ publish publish_request
    ∷ stage stage_request
    ∷ publish publish_request
    ∷ publish publish_request
    ∷ []

unstaged_verdicts :
    (serve_all (gce_mounter tabled) unstaged bare).0
    ≡ accepted ∷ accepted ∷ accepted ∷ accepted ∷ already ∷ []
unfolding serve_all node_stage_volume node_publish_volume Gce.verify_device_path
    Commands.get_disk_by_id_paths Gce.is_likely_not_mount_point Gce.format_and_mount Gce.do_mount
unstaged_verdicts = refl

unstaged_stacks :
    (serve_all (gce_mounter tabled) unstaged bare).1.0 "/target" ≡ true ∷ false ∷ false ∷ []
unfolding serve_all node_stage_volume node_publish_volume Gce.verify_device_path
    Commands.get_disk_by_id_paths Gce.is_likely_not_mount_point Gce.format_and_mount Gce.do_mount
unstaged_stacks = refl
