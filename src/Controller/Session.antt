-- ===== src/Controller/Session.antt =====
-- The RPCs of the controller that change the cloud, one after another, over the fake cloud.
pub mod Reaches
pub mod Lifecycle
pub mod Detach
pub mod Volumes
use compute_persistent_disk.Prelude.{
  ◌+◌, String, ◌≡◌, ◌≢◌, true, refl, ap, sym, subst, inl, inr, none, some, List, [], ◌∷◌, arith,
  Option-cases, Bool-cases, ◌==◌, eq_iff,
}
use compute_persistent_disk.Go.Error.{Reply, panicked}
use compute_persistent_disk.Go.Dict.{lookup}
use compute_persistent_disk.Csi.{
  CreateVolumeRequest, DeleteVolumeRequest, ControllerPublishVolumeRequest,
  ControllerUnpublishVolumeRequest, Response,
}
use compute_persistent_disk.Prelude.Int.{ℤ}
use compute_persistent_disk.Cloud.{Disk}
use compute_persistent_disk.Cloud.Fake
use compute_persistent_disk.Cloud.Fake.{FakeCloud, fake_cloud, create_fake}
use compute_persistent_disk.Cloud.Fake.Changes.{
  IsWellFormed, Change, unchanged, created, deleted, Change-IsWellFormed,
}
use compute_persistent_disk.Controller.Create.{create_volume, provision}
use compute_persistent_disk.Controller.Delete.{delete_volume, delete_named}
use compute_persistent_disk.Controller.Publish.{
  controller_publish_volume, controller_unpublish_volume,
}
use compute_persistent_disk.Controller.Publish.Changes.{
  publish_named-Change, unpublish_named-Change,
}
use compute_persistent_disk.Controller.Session.Reaches.{
  create_reaches, delete_reaches, publish_reaches, unpublish_reaches,
}

-- An RPC of the controller that changes the cloud.
pub data Rpc : Type 0 where
  create : CreateVolumeRequest → Rpc
  delete : DeleteVolumeRequest → Rpc
  publish : ControllerPublishVolumeRequest → Rpc
  unpublish : ControllerUnpublishVolumeRequest → Rpc

-- The cloud after an RPC.
abbrev pub step : Rpc → FakeCloud → FakeCloud
step (create req) c = (create_volume fake_cloud req c).1
step (delete req) c = (delete_volume fake_cloud req c).1
step (publish req) c = (controller_publish_volume fake_cloud req c).1
step (unpublish req) c = (controller_unpublish_volume fake_cloud req c).1

-- The clouds that RPCs lead to.
pub data Reach (s : FakeCloud) : FakeCloud → Type 0 where
  start : Reach s s
  after : {c : FakeCloud} (r : Rpc) → Reach s c → Reach s (step r c)

pub validate_existing-exists :
    (d : Disk) (disk_type : String) (req_bytes lim_bytes : ℤ)
    → (Fake.validate_existing d disk_type req_bytes lim_bytes).0 ≡ true
unfolding Fake.validate_existing
validate_existing-exists d disk_type req_bytes lim_bytes = ground arith

-- An existing disk is validated, and neither changed nor made again.
provision_existing :
    (req : CreateVolumeRequest) (disk_type zone : String) (c : FakeCloud) {d : Disk}
    → lookup req.name c.disks ≡ some d
    → (provision fake_cloud req disk_type zone c).1 ≡ c
unfolding provision Fake.get_and_validate_existing_disk
provision_existing req disk_type zone c {d} e = rw (e, validate_existing-exists) (ground arith)

provision-Change :
    (req : CreateVolumeRequest) (disk_type zone : String) (c : FakeCloud)
    → Change c (provision fake_cloud req disk_type zone c).1
provision-Change req disk_type zone c = elim (Option-cases (lookup req.name c.disks)) [
  | inl e ↦
      unfold provision Fake.get_and_validate_existing_disk Fake.insert_disk in rw e (created _)
  | inr (d, e) ↦ subst (Change c) (sym (provision_existing req disk_type zone c e)) unchanged
]

delete_named-Change :
    (zone name : String) (c : FakeCloud) → Change c (delete_named fake_cloud zone name c).1
unfolding delete_named Fake.delete_disk
delete_named-Change zone name c = deleted name

-- Each RPC makes at most one change of a cloud that is well-formed.
step-Change : (r : Rpc) (c : FakeCloud) → IsWellFormed c → Change c (step r c)
step-Change (create req) c w = elim (create_reaches req c) [
  | inl e ↦ subst (Change c) (sym e) unchanged
  | inr (disk_type, zone, _, e) ↦
      subst (λ r. Change c r.1) (sym e) (provision-Change req disk_type zone c)
]
step-Change (delete req) c w = elim (delete_reaches fake_cloud c req) [
  | inl e ↦ subst (Change c) (sym e) unchanged
  | inr (zone, name, _, e) ↦ subst (λ r. Change c r.1) (sym e) (delete_named-Change zone name c)
]
step-Change (publish req) c w = elim (publish_reaches fake_cloud c req) [
  | inl e ↦ subst (Change c) (sym e) unchanged
  | inr (zone, name, _, e) ↦
      subst (λ r. Change c r.1) (sym e) (publish_named-Change req c zone name)
]
step-Change (unpublish req) c w = elim (unpublish_reaches fake_cloud c req) [
  | inl e ↦ subst (Change c) (sym e) unchanged
  | inr (zone, name, _, e) ↦
      subst (λ r. Change c r.1) (sym e) (unpublish_named-Change req c zone name w)
]

-- A fake cloud that is well-formed stays so through any sequence of the controller's RPCs,
-- whatever the requests: each disk is stored under its own name, and no instance has two disks of
-- one device name.
pub Reach-IsWellFormed : {s c : FakeCloud} → Reach s c → IsWellFormed s → IsWellFormed c
Reach-IsWellFormed start w = w
Reach-IsWellFormed (after {c} r h) w =
    let before = Reach-IsWellFormed h w in Change-IsWellFormed (step-Change r c before) before
