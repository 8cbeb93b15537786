-- ===== src/Controller/Session/Reaches.antt =====
-- How far an RPC of the controller gets: it returns before it has touched the cloud, or it is the
-- rest of its body for the zone and the name that the request stands for.
use compute_persistent_disk.Prelude.{
  String, ◌≡◌, ◌⊎◌, inl, inr, arith, Bool-cases, ◌==◌, is_nil, is_empty,
}
use compute_persistent_disk.Go.Error.{ok, is_ok, is_err, is_panic, Outcome-of}
use compute_persistent_disk.Csi.{
  CreateVolumeRequest, DeleteVolumeRequest, ControllerPublishVolumeRequest,
  ControllerUnpublishVolumeRequest,
}
use compute_persistent_disk.Utils.{split_zone_name_id}
use compute_persistent_disk.Cloud.{GceCompute}
use compute_persistent_disk.Cloud.Fake.{FakeCloud, fake_cloud}
use compute_persistent_disk.Controller.Create.{create_volume, provision, apply_parameters}
use compute_persistent_disk.Controller.Delete.{delete_volume, delete_named}
use compute_persistent_disk.Controller.Publish.{
  controller_publish_volume, controller_unpublish_volume, publish_named, unpublish_named,
}

module _ (cloud : GceCompute) (s : cloud.State) where
  pub publish_reaches :
      (req : ControllerPublishVolumeRequest)
      → ((controller_publish_volume cloud req s).1 ≡ s)
        ⊎ ((zone : String) × (name : String) × (split_zone_name_id req.volume_id ≡ ok (zone, name))
            × (controller_publish_volume cloud req s ≡ publish_named cloud req zone name s))
  unfolding controller_publish_volume
  publish_reaches req = elim (Outcome-of (split_zone_name_id req.volume_id)) [
    | is_err e h ↦ inl (ground arith)
    | is_panic h ↦ inl (ground arith)
    | is_ok (zone, name) h ↦ elim (Bool-cases (req.volume_id == "")) [
      | inl a ↦ inl (ground arith)
      | inr a ↦ elim (Bool-cases (req.node_id == "")) [
        | inl b ↦ inl (ground arith)
        | inr b ↦ elim (Bool-cases (is_nil req.volume_capability)) [
          | inl d ↦ inl (ground arith)
          | inr d ↦ inr (zone, name, h, rw (a, b, d, h))
        ]
      ]
    ]
  ]

  pub unpublish_reaches :
      (req : ControllerUnpublishVolumeRequest)
      → ((controller_unpublish_volume cloud req s).1 ≡ s)
        ⊎ ((zone : String) × (name : String) × (split_zone_name_id req.volume_id ≡ ok (zone, name))
            × (controller_unpublish_volume cloud req s ≡ unpublish_named cloud req zone name s))
  unfolding controller_unpublish_volume
  unpublish_reaches req = elim (Outcome-of (split_zone_name_id req.volume_id)) [
    | is_err e h ↦ inl (ground arith)
    | is_panic h ↦ inl (ground arith)
    | is_ok (zone, name) h ↦ elim (Bool-cases (req.volume_id == "")) [
      | inl a ↦ inl (ground arith)
      | inr a ↦ elim (Bool-cases (req.node_id == "")) [
        | inl b ↦ inl (ground arith)
        | inr b ↦ inr (zone, name, h, rw (a, b, h))
      ]
    ]
  ]

  pub delete_reaches :
      (req : DeleteVolumeRequest)
      → ((delete_volume cloud req s).1 ≡ s)
        ⊎ ((zone : String) × (name : String) × (split_zone_name_id req.volume_id ≡ ok (zone, name))
            × (delete_volume cloud req s ≡ delete_named cloud zone name s))
  unfolding delete_volume
  delete_reaches req = elim (Outcome-of (split_zone_name_id req.volume_id)) [
    | is_err e h ↦ inl (ground arith)
    | is_panic h ↦ inl (ground arith)
    | is_ok (zone, name) h ↦ elim (Bool-cases (req.volume_id == "")) [
      | inl a ↦ inl (ground arith)
      | inr a ↦ inr (zone, name, h, rw (a, h))
    ]
  ]

-- Over the fake cloud, where `GetZone` changes nothing.
pub create_reaches :
    (req : CreateVolumeRequest) (c : FakeCloud)
    → ((create_volume fake_cloud req c).1 ≡ c)
      ⊎ ((disk_type : String) × (zone : String) × (apply_parameters req.parameters "pd-standard"
              c.zone
            ≡ ok (disk_type, zone))
          × (create_volume fake_cloud req c ≡ provision fake_cloud req disk_type zone c))
unfolding create_volume
create_reaches req c = elim (Outcome-of (apply_parameters req.parameters "pd-standard" c.zone)) [
  | is_err e h ↦ inl (ground arith)
  | is_panic h ↦ inl (ground arith)
  | is_ok (disk_type, zone) h ↦ elim (Bool-cases (req.name == "")) [
    | inl a ↦ inl (ground arith)
    | inr a ↦ elim (Bool-cases (is_empty req.volume_capabilities)) [
      | inl b ↦ inl (ground arith)
      | inr b ↦ inr (disk_type, zone, h, rw (a, b, h))
    ]
  ]
]
