-- ===== src/Controller/Service/Publishing.antt =====
-- `ControllerPublishVolume` and `ControllerUnpublishVolume` on the fake cloud keep the promise.
use compute_persistent_disk.Prelude.{
  ◌<◌, String, true, false, ◌≡◌, refl, sym, ap, ◌∙◌, inl, inr, none, some, List, [], ◌∷◌, ◌++◌,
  arith, ◌==◌, eq_iff, is_nil, if◌then◌else◌, Option-cases, Bool-cases,
}
use compute_persistent_disk.Go.Error.{
  errorf, str, end, Err, Reply, is_ok, is_err, is_panic, Outcome-of,
}
use compute_persistent_disk.Go.Dict.{lookup}
use compute_persistent_disk.Csi.{ControllerPublishVolumeRequest, ControllerUnpublishVolumeRequest}
use compute_persistent_disk.Utils.{split_zone_name_id}
use compute_persistent_disk.Cloud.{Disk, AttachedDisk, Instance}
use compute_persistent_disk.Cloud.Fake
use compute_persistent_disk.Cloud.Fake.{FakeCloud, fake_cloud, set_disks}
use compute_persistent_disk.Cloud.Fake.Changes.{IsWellFormed}
use compute_persistent_disk.Cloud.Fake.Devices.{uses}
use compute_persistent_disk.Cloud.Fake.Modes.{
  mode_of, mode_of-none, mode_of-append, mode_of-removed,
}
use compute_persistent_disk.Controller.Publish.{
  compatible_in, read_write_mode, publish_named, unpublish_named, controller_publish_volume,
  controller_unpublish_volume,
}
use compute_persistent_disk.Controller.Publish.Devices.{attached_in_iff}
use compute_persistent_disk.Controller.Publish.Changes.{
  attachment, publish_named_new, unpublish_named_removed, unpublish_named_absent,
}
use compute_persistent_disk.Controller.Session.{publish, unpublish}
use compute_persistent_disk.Controller.Service.{
  Volumes, Verdict, verdict_of, promise, publish_at, unpublish_at, publish_as,
}
use compute_persistent_disk.Controller.Service.View.{
  view, view-set_disks, set_mode-same, pair_path, mode_in, at_node-view,
}

-- The verdict of a reply, and the view of the cloud beside it.
abbrev pub seen : {A : Type 0} → Reply A × FakeCloud → Verdict × Volumes
seen (r, c) = (verdict_of r, view c)

compatible_in-mode :
    (name m : String) (ds : List AttachedDisk)
    → mode_of name ds ≡ none
    → (compatible_in name m ds).0 ≡ false
compatible_in-mode name m [] h = refl
compatible_in-mode name m (d ∷ ds) h = ground (arith, compatible_in-mode name m ds)

compatible_in-same :
    (name m : String) (ds : List AttachedDisk)
    → mode_of name ds ≡ some m
    → compatible_in name m ds ≡ (true, none)
compatible_in-same name m [] h = cc
compatible_in-same name m (d ∷ ds) h = ground (arith, compatible_in-same name m ds, eq_iff d.mode m)

compatible_in-other :
    (name m m' : String) (ds : List AttachedDisk)
    → mode_of name ds ≡ some m'
    → (m' == m) ≡ false
    → (failure : Err) × (compatible_in name m ds ≡ (true, some failure))
compatible_in-other name m m' [] h n = cc
compatible_in-other name m m' (d ∷ ds) h n = elim (Bool-cases (d.device_name == name)) [
  | inl g ↦ (
    errorf "disk mode does not match. Got %v. Want %v" (str d.mode (str m end)),
    ground (arith, eq_iff d.mode m, eq_iff m' m),
  )
  | inr g ↦
      let (failure, r) = compatible_in-other name m m' ds (ground arith) n in (failure, rw g r)
]

module _ (c : FakeCloud) (w : IsWellFormed c) (zone name : String) where
  module _ (req : ControllerPublishVolumeRequest) where
    publish_named-new :
        (d : Disk) (i : Instance)
        → lookup name c.disks ≡ some d
        → lookup req.node_id c.instances ≡ some i
        → mode_of name i.disks ≡ none
        → seen (publish_named fake_cloud req zone name c)
          ≡ publish_at req.node_id name (read_write_mode req.readonly) (view c)
    publish_named-new d i e f h =
        let m = read_write_mode req.readonly in
        let a = attachment d req.readonly in
        let named = w.keyed name d e in
        let absent : mode_of d.name i.disks ≡ none = ap (λ n. mode_of n i.disks) named ∙ h in
        ap seen (publish_named_new req c zone name e f (compatible_in-mode d.name m i.disks absent))
        ∙ pair_path refl (
            view-set_disks c req.node_id name i (some m) (i.disks ++ a ∷ []) f (λ x.
              mode_of-append x i.disks a ((mode_of-none d.name i.disks).0 absent)
              ∙ ap (λ n. if n == x then some m else mode_of x i.disks) named))
        ∙ ap (λ o. publish_as req.node_id name m o (view c)) (sym (ap (λ o. mode_in o name) f ∙ h))
        ∙ sym (at_node-view c req.node_id name d i _ e f)

    publish_named-old :
        (d : Disk) (i : Instance) (m : String)
        → lookup name c.disks ≡ some d
        → lookup req.node_id c.instances ≡ some i
        → mode_of name i.disks ≡ some m
        → seen (publish_named fake_cloud req zone name c)
          ≡ publish_at req.node_id name (read_write_mode req.readonly) (view c)
    unfolding publish_named Fake.get_disk_or_error Fake.get_instance_or_error
    publish_named-old d i m e f h =
        let asked = read_write_mode req.readonly in
        let moved = ap (λ n. compatible_in n asked i.disks) (w.keyed name d e) in
        elim (Bool-cases (m == asked)) [
          | inl g ↦
              let same =
                moved
                ∙ compatible_in-same name asked i.disks (h ∙ ap some ((eq_iff m asked).0 g)) in
              rw (e, f, same, h, g) refl
          | inr g ↦
              let (failure, other) = compatible_in-other name asked m i.disks h g in
              rw (e, f, moved ∙ other, h, g) refl
        ]

    publish_named-seen :
        seen (publish_named fake_cloud req zone name c)
        ≡ publish_at req.node_id name (read_write_mode req.readonly) (view c)
    publish_named-seen = elim (Option-cases (lookup name c.disks)) [
      | inl e ↦ unfold publish_named Fake.get_disk_or_error in rw e refl
      | inr (d, e) ↦ elim (Option-cases (lookup req.node_id c.instances)) [
        | inl f ↦
            unfold publish_named Fake.get_disk_or_error Fake.get_instance_or_error in rw (e, f) refl
        | inr (i, f) ↦ elim (Option-cases (mode_of name i.disks)) [
          | inl h ↦ publish_named-new d i e f h
          | inr (m, h) ↦ publish_named-old d i m e f h
        ]
      ]
    ]

  module _ (req : ControllerUnpublishVolumeRequest) where
    unpublish_named-absent :
        (d : Disk) (i : Instance)
        → lookup name c.disks ≡ some d
        → lookup req.node_id c.instances ≡ some i
        → mode_of name i.disks ≡ none
        → seen (unpublish_named fake_cloud req zone name c) ≡ unpublish_at req.node_id name (view c)
    unpublish_named-absent d i e f h =
        ap seen (
          unpublish_named_absent req c zone name e f (w.keyed name d e)
            (ground (arith, attached_in_iff name i.disks, mode_of-none name i.disks)))
        ∙ pair_path refl (sym (set_mode-same c req.node_id name i none f h))
        ∙ sym (at_node-view c req.node_id name d i _ e f)

    unpublish_named-present :
        (d : Disk) (i : Instance)
        → lookup name c.disks ≡ some d
        → lookup req.node_id c.instances ≡ some i
        → 0 < uses name i.disks
        → seen (unpublish_named fake_cloud req zone name c) ≡ unpublish_at req.node_id name (view c)
    unpublish_named-present d i e f h =
        let (rest, a, r, hit, totals) =
          unpublish_named_removed req c zone name e f (w.keyed name d e) h in
        ap seen r
        ∙ pair_path refl (
            view-set_disks c req.node_id name i none rest f
              (mode_of-removed name i.disks rest a (λ x. w.distinct req.node_id x i f) hit totals))
        ∙ sym (at_node-view c req.node_id name d i _ e f)

    unpublish_named-seen :
        seen (unpublish_named fake_cloud req zone name c) ≡ unpublish_at req.node_id name (view c)
    unpublish_named-seen = elim (Option-cases (lookup name c.disks)) [
      | inl e ↦ unfold unpublish_named Fake.get_disk_or_error in rw e refl
      | inr (d, e) ↦ elim (Option-cases (lookup req.node_id c.instances)) [
        | inl f ↦
            unfold unpublish_named Fake.get_disk_or_error Fake.get_instance_or_error in
            rw (e, f) refl
        | inr (i, f) ↦ elim (Option-cases (mode_of name i.disks)) [
          | inl h ↦ unpublish_named-absent d i e f h
          | inr (m, h) ↦ unpublish_named-present d i e f (ground (arith, mode_of-none name i.disks))
        ]
      ]
    ]

-- Whatever the request to publish, its verdict and the view of the cloud are as promised.
pub publish-seen :
    (c : FakeCloud) (req : ControllerPublishVolumeRequest)
    → IsWellFormed c
    → seen (controller_publish_volume fake_cloud req c) ≡ promise (publish req) (view c)
unfolding controller_publish_volume
publish-seen c req w = elim (Bool-cases (req.volume_id == "")) [
  | inl a ↦ rw a refl
  | inr a ↦ elim (Bool-cases (req.node_id == "")) [
    | inl b ↦ rw (a, b) refl
    | inr b ↦ elim (Bool-cases (is_nil req.volume_capability)) [
      | inl d ↦ rw (a, b, d) refl
      | inr d ↦ elim (Outcome-of (split_zone_name_id req.volume_id)) [
        | is_err e h ↦ rw (a, b, d, h) refl
        | is_panic h ↦ rw (a, b, d, h) refl
        | is_ok (zone, name) h ↦ rw (a, b, d, h) (publish_named-seen c w zone name req)
      ]
    ]
  ]
]

pub unpublish-seen :
    (c : FakeCloud) (req : ControllerUnpublishVolumeRequest)
    → IsWellFormed c
    → seen (controller_unpublish_volume fake_cloud req c) ≡ promise (unpublish req) (view c)
unfolding controller_unpublish_volume
unpublish-seen c req w = elim (Bool-cases (req.volume_id == "")) [
  | inl a ↦ rw a refl
  | inr a ↦ elim (Bool-cases (req.node_id == "")) [
    | inl b ↦ rw (a, b) refl
    | inr b ↦ elim (Outcome-of (split_zone_name_id req.volume_id)) [
      | is_err e h ↦ rw (a, b, h) refl
      | is_panic h ↦ rw (a, b, h) refl
      | is_ok (zone, name) h ↦ rw (a, b, h) (unpublish_named-seen c w zone name req)
    ]
  ]
]
