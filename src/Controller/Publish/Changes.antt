-- ===== src/Controller/Publish/Changes.antt =====
-- The controller's RPCs over the fake cloud: each makes at most one change of it.
use compute_persistent_disk.Prelude.{
  ℕ, ◌==◌, ◌+◌, ◌<◌, ◌∙◌, String, Bool, true, false, ◌≡◌, ap, sym, subst, inl, inr, some, List, [],
  ◌∷◌, ◌++◌, arith, Bool-cases, Option-cases,
}
use compute_persistent_disk.Go.Error.{Reply, respond}
use compute_persistent_disk.Go.Dict.{lookup}
use compute_persistent_disk.Csi.{
  Response, response, ControllerPublishVolumeRequest, ControllerUnpublishVolumeRequest,
}
use compute_persistent_disk.Cloud.{Disk, AttachedDisk, Instance}
use compute_persistent_disk.Cloud.Fake
use compute_persistent_disk.Cloud.Fake.{FakeCloud, fake_cloud, set_disks}
use compute_persistent_disk.Cloud.Fake.Changes.{IsWellFormed, Change, unchanged, attached, detached}
use compute_persistent_disk.Controller.Publish.{
  compatible_in, read_write_mode, publish_named, unpublish_named, attached_in,
}
use compute_persistent_disk.Controller.Publish.Devices.{compatible_in_absent, attached_in_iff}
use compute_persistent_disk.Cloud.Fake.Devices.{
  uses, total, same, remove_found-total, uses_of_totals,
}

state_of : {r s : Reply Response × FakeCloud} → r ≡ s → r.1 ≡ s.1
state_of e = ap (λ (r : Reply Response × FakeCloud). r.1) e

-- What `ControllerPublishVolume` attaches to an instance.
abbrev pub attachment : Disk → Bool → AttachedDisk
attachment d readonly = record {
  device_name = d.name;
  kind = d.kind;
  mode = read_write_mode readonly;
  source = "";
  type = d.type;
}

module _ (req : ControllerPublishVolumeRequest) (c : FakeCloud) (zone name : String) where
  module _ {d : Disk} {i : Instance} (e : lookup name c.disks ≡ some d)
      (f : lookup req.node_id c.instances ≡ some i) where
    -- The disk is attached where the instance has no device of its name.
    pub publish_named_new :
        (compatible_in d.name (read_write_mode req.readonly) i.disks).0 ≡ false
        → publish_named fake_cloud req zone name c
          ≡ (respond response, set_disks c req.node_id (i.disks ++ attachment d req.readonly ∷ []))
    unfolding publish_named Fake.get_disk_or_error Fake.get_instance_or_error Fake.attach_disk
    publish_named_new h =
        rw (e, f, (compatible_in_absent d.name (read_write_mode req.readonly) i.disks h).0, f)

    -- Otherwise nothing changes, and the mode decides the answer.
    pub publish_named_old :
        (compatible_in d.name (read_write_mode req.readonly) i.disks).0 ≡ true
        → (publish_named fake_cloud req zone name c).1 ≡ c
    unfolding publish_named Fake.get_disk_or_error Fake.get_instance_or_error Fake.attach_disk
    publish_named_old h = rw (e, f, h) (ground arith)

  pub publish_named-Change : Change c (publish_named fake_cloud req zone name c).1
  publish_named-Change = elim (Option-cases (lookup name c.disks)) [
    | inl e ↦ unfold publish_named Fake.get_disk_or_error in rw e unchanged
    | inr (d, e) ↦ elim (Option-cases (lookup req.node_id c.instances)) [
      | inl f ↦
          unfold publish_named Fake.get_disk_or_error Fake.get_instance_or_error in
          rw (e, f) unchanged
      | inr (i, f) ↦
          elim (Bool-cases (compatible_in d.name (read_write_mode req.readonly) i.disks).0) [
            | inl g ↦ subst (Change c) (sym (publish_named_old e f g)) unchanged
            | inr g ↦ subst (Change c) (sym (state_of (publish_named_new e f g))) (
                attached req.node_id i (attachment d req.readonly) f
                  (compatible_in_absent d.name (read_write_mode req.readonly) i.disks g).1)
          ]
    ]
  ]

module _ (req : ControllerUnpublishVolumeRequest) (c : FakeCloud) (zone name : String) where
  module _ {d : Disk} {i : Instance} (e : lookup name c.disks ≡ some d)
      (f : lookup req.node_id c.instances ≡ some i) (named : d.name ≡ name) where
    -- A disk that is attached is detached: one device of its name goes.
    pub unpublish_named_removed :
        0 < uses name i.disks
        → (rest : List AttachedDisk) × (a : AttachedDisk) × (unpublish_named fake_cloud req zone
              name c
            ≡ (respond response, set_disks c req.node_id rest))
          × ((a.device_name == name) ≡ true)
          × ((w : AttachedDisk → ℕ) → total w rest + w a ≡ total w i.disks)
    unfolding unpublish_named Fake.get_disk_or_error Fake.get_instance_or_error Fake.detach_disk
    unpublish_named_removed h =
        let (rest, a, r, hit, totals) = remove_found-total name i.disks h in
        (
          rest,
          a,
          rw (
            e,
            f,
            ap (λ n. attached_in n i.disks) named ∙ (attached_in_iff name i.disks).1 h,
            f,
            r,
          ),
          hit,
          totals,
        )

    pub unpublish_named_attached :
        0 < uses name i.disks
        → (rest : List AttachedDisk) × (unpublish_named fake_cloud req zone name c
            ≡ (respond response, set_disks c req.node_id rest))
          × ((x : String) → uses x rest + same name x ≡ uses x i.disks)
    unpublish_named_attached h =
        let (rest, a, r, hit, totals) = unpublish_named_removed h in
        (rest, r, uses_of_totals name i.disks rest a hit totals)

    -- Otherwise nothing changes.
    pub unpublish_named_absent :
        attached_in name i.disks ≡ false
        → unpublish_named fake_cloud req zone name c ≡ (respond response, c)
    unfolding unpublish_named Fake.get_disk_or_error Fake.get_instance_or_error Fake.detach_disk
    unpublish_named_absent h = rw (e, f, ap (λ n. attached_in n i.disks) named ∙ h)

  pub unpublish_named-Change :
      IsWellFormed c → Change c (unpublish_named fake_cloud req zone name c).1
  unpublish_named-Change w = elim (Option-cases (lookup name c.disks)) [
    | inl e ↦ unfold unpublish_named Fake.get_disk_or_error in rw e unchanged
    | inr (d, e) ↦ elim (Option-cases (lookup req.node_id c.instances)) [
      | inl f ↦
          unfold unpublish_named Fake.get_disk_or_error Fake.get_instance_or_error in
          rw (e, f) unchanged
      | inr (i, f) ↦ elim (Bool-cases (attached_in name i.disks)) [
        | inl g ↦
            let (rest, r, counts) =
              unpublish_named_attached e f (w.keyed name d e)
                ((attached_in_iff name i.disks).0 g) in
            subst (Change c) (sym (state_of r)) (detached req.node_id i name rest f counts)
        | inr g ↦
            subst (Change c) (sym (state_of (unpublish_named_absent e f (w.keyed name d e) g)))
              unchanged
      ]
    ]
  ]
