-- ===== src/Controller/Session/Detach.antt =====
-- `ControllerUnpublishVolume` on the fake cloud, whose `DetachDisk` panics for a device that the
-- instance does not have.
use compute_persistent_disk.Prelude.{
  String, ◌≡◌, ◌≢◌, ◌∙◌, inl, inr, some, List, [], ◌∷◌, ◌++◌, arith, Option-cases, Bool-cases,
  eq_iff,
}
use compute_persistent_disk.Go.Error.{panicked, respond, is_ok, is_err, is_panic, Outcome-of}
use compute_persistent_disk.Go.Dict.{lookup}
use compute_persistent_disk.Csi.{
  ControllerPublishVolumeRequest, ControllerUnpublishVolumeRequest, response,
}
use compute_persistent_disk.Utils.{split_zone_name_id}
use compute_persistent_disk.Utils.VolumeId.{split_zone_name_id-ne-panic}
use compute_persistent_disk.Cloud.{Disk, AttachedDisk, Instance}
use compute_persistent_disk.Cloud.Fake
use compute_persistent_disk.Cloud.Fake.{FakeCloud, fake_cloud, set_disks}
use compute_persistent_disk.Cloud.Fake.Devices.{uses, uses-append}
use compute_persistent_disk.Cloud.Fake.Changes.{IsWellFormed}
use compute_persistent_disk.Controller.Publish.{
  controller_unpublish_volume, unpublish_named, attached_in,
}
use compute_persistent_disk.Controller.Publish.Devices.{attached_in_iff}
use compute_persistent_disk.Controller.Publish.Changes.{
  attachment, unpublish_named_attached, unpublish_named_absent,
}
use compute_persistent_disk.Controller.Session.Lifecycle.{
  IsPublishFor, IsUnpublishFor, with_attached, found_again, unpublish_valid,
}

-- Where a disk, stored under its own name, was just published to an instance that did not have
-- it, a valid request to unpublish it succeeds, replaces the attachments of that instance and
-- changes nothing else, and the instance has each device as often as before.
pub unpublish-publish :
    (c : FakeCloud) (req : ControllerPublishVolumeRequest) (zone name : String) (d : Disk)
    (i : Instance) (req' : ControllerUnpublishVolumeRequest)
    → IsPublishFor req zone name
    → lookup name c.disks ≡ some d
    → lookup req.node_id c.instances ≡ some i
    → uses d.name i.disks ≡ 0
    → IsUnpublishFor req' zone name
    → req'.node_id ≡ req.node_id
    → d.name ≡ name
    → (rest : List AttachedDisk) × (controller_unpublish_volume fake_cloud req'
          (with_attached c req d i)
        ≡ (respond response, set_disks (with_attached c req d i) req'.node_id rest))
      × ((x : String) → uses x rest ≡ uses x i.disks)
unpublish-publish c req zone name d i req' valid e f fresh valid' n named =
    let a = attachment d req.readonly in
    let total = λ (x : String). uses-append x i.disks (a ∷ []) in
    let (rest, r, counts) =
      unpublish_named_attached req' (with_attached c req d i) zone name
        {i = record { disks = i.disks ++ a ∷ [] }} e
        (rw n (found_again c req zone name d i valid e f fresh)) named
        (ground (arith, total name, eq_iff d.name name)) in
    (
      rest,
      unpublish_valid fake_cloud req' zone name (with_attached c req d i) valid' ∙ r,
      λ x. ground (arith, total x, counts x, eq_iff d.name x, eq_iff name x),
    )

unpublish_named-ne-panicked :
    (req : ControllerUnpublishVolumeRequest) (zone name : String) (c : FakeCloud)
    → IsWellFormed c
    → (unpublish_named fake_cloud req zone name c).0 ≢ panicked
unfolding unpublish_named Fake.get_disk_or_error Fake.get_instance_or_error
unpublish_named-ne-panicked req zone name c w = elim (Option-cases (lookup name c.disks)) [
  | inl e ↦ rw e (λ h. cc)
  | inr (d, e) ↦ elim (Option-cases (lookup req.node_id c.instances)) [
    | inl f ↦ rw (e, f) (λ h. cc)
    | inr (i, f) ↦ elim (Bool-cases (attached_in name i.disks)) [
      | inl g ↦
          let (rest, r, counts) =
            unpublish_named_attached req c zone name e f (w.keyed name d e)
              ((attached_in_iff name i.disks).0 g) in
          λ h. cc r
      | inr g ↦ λ h. cc (unpublish_named_absent req c zone name e f (w.keyed name d e) g)
    ]
  ]
]

-- On a fake cloud that is well-formed no request to unpublish panics.
pub unpublish-ne-panicked :
    (c : FakeCloud) (req : ControllerUnpublishVolumeRequest)
    → IsWellFormed c
    → (controller_unpublish_volume fake_cloud req c).0 ≢ panicked
unfolding controller_unpublish_volume
unpublish-ne-panicked c req w = elim (Outcome-of (split_zone_name_id req.volume_id)) [
  | is_err e h ↦ ground arith
  | is_panic h ↦ absurd (split_zone_name_id-ne-panic req.volume_id h)
  | is_ok (zone, name) h ↦ rw h (ground (arith, unpublish_named-ne-panicked req zone name c w))
]
