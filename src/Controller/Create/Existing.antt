-- ===== src/Controller/Create/Existing.antt =====
-- `CreateVolume` over the cloud provider, where a disk of the name exists.
use compute_persistent_disk.Prelude.{String, ◌≡◌, ◌≢◌, some, false, arith, eq_iff, ◌==◌, is_empty}
use compute_persistent_disk.Go.Error.{code_of, already_exists, ok, answer}
use compute_persistent_disk.Csi.{CreateVolumeRequest}
use compute_persistent_disk.Cloud.{Disk}
use compute_persistent_disk.Cloud.Poll.{Poll}
use compute_persistent_disk.Cloud.Provider.{
  ComputeService, cloud_provider, last_component, validate_existing, get_and_validate_existing_disk,
}
use compute_persistent_disk.Controller.Create.{create_volume, apply_parameters}

module _ (svc : ComputeService) (poll : Poll svc.State) (project default_zone : String) where
  -- Over the cloud provider, a request with a name, capabilities and parameters that are
  -- understood, where the GET of a disk of that name answers one of the type asked for, not the
  -- empty text, is answered by `AlreadyExists`, whatever sizes are asked for, and the state is
  -- the one after that GET.
  pub create_volume_same_type :
      (req : CreateVolumeRequest) (disk_type zone : String) (d : Disk) (s s' : svc.State)
      → req.name ≢ ""
      → is_empty req.volume_capabilities ≡ false
      → apply_parameters req.parameters "pd-standard" default_zone ≡ ok (disk_type, zone)
      → svc.disks_get project zone req.name s ≡ (answer d, s')
      → last_component d.type ≡ disk_type
      → disk_type ≢ ""
      → let answered = create_volume (cloud_provider svc poll project default_zone) req s in
        (code_of answered.0 ≡ some already_exists) × (answered.1 ≡ s')
  unfolding create_volume get_and_validate_existing_disk validate_existing
  create_volume_same_type req disk_type zone d s s' n v p g t ne =
      let a : (req.name == "") ≡ false = ground (arith, eq_iff req.name "") in
      rw (a, v, p, g)
        (ground (arith, eq_iff (last_component d.type) disk_type, eq_iff disk_type ""))
