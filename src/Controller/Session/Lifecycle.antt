-- ===== src/Controller/Session/Lifecycle.antt =====
-- The life of a volume on the fake cloud: what each RPC of the controller leaves, and what the next
-- one makes of it.
use compute_persistent_disk.Prelude.{
  String, Bool, true, false, ◌≡◌, ◌≢◌, refl, ◌∙◌, subst, inl, inr, none, some, List, [], ◌∷◌, ◌++◌,
  arith, Bool-cases, ◌==◌, eq_iff, is_nil, eq_refl,
}
use compute_persistent_disk.Go.Error.{respond, ok, code_of, already_exists, errorf, str, end}
use compute_persistent_disk.Go.Dict.{lookup, lookup-insert}
use compute_persistent_disk.Csi.{
  ControllerPublishVolumeRequest, ControllerUnpublishVolumeRequest, response,
}
use compute_persistent_disk.Utils.{split_zone_name_id}
use compute_persistent_disk.Cloud.{Disk, AttachedDisk, Instance, GceCompute}
use compute_persistent_disk.Cloud.Fake
use compute_persistent_disk.Cloud.Fake.{FakeCloud, fake_cloud, set_disks}
use compute_persistent_disk.Cloud.Fake.Devices.{uses}
use compute_persistent_disk.Controller.Publish.{
  controller_publish_volume, controller_unpublish_volume, publish_named, unpublish_named,
  compatible_in, read_write_mode,
}
use compute_persistent_disk.Controller.Publish.Devices.{compatible_in_present}
use compute_persistent_disk.Controller.Publish.Changes.{attachment, publish_named_new}

pub id-ne-nil :
    (id : String) {zone name : String}
    → split_zone_name_id id ≡ ok (zone, name)
    → (id == "") ≡ false
unfolding split_zone_name_id
id-ne-nil id {zone} {name} h = elim (Bool-cases (id == "")) [
  | inl e ↦
      let z : split_zone_name_id "" ≡ ok (zone, name) =
        subst (λ t. split_zone_name_id t ≡ ok (zone, name)) ((eq_iff id "").0 e) h in
      cc
  | inr e ↦ e
]

-- A request with all of its fields, for the volume of that zone and name.
abbrev pub IsPublishFor : ControllerPublishVolumeRequest → String → String → Type 0
IsPublishFor req zone name =
    (split_zone_name_id req.volume_id ≡ ok (zone, name))
    × (req.node_id ≢ "")
    × (is_nil req.volume_capability ≡ false)

abbrev pub IsUnpublishFor : ControllerUnpublishVolumeRequest → String → String → Type 0
IsUnpublishFor req zone name =
    (split_zone_name_id req.volume_id ≡ ok (zone, name)) × (req.node_id ≢ "")

publish_valid :
    (cloud : GceCompute) (req : ControllerPublishVolumeRequest) (zone name : String)
    (s : cloud.State)
    → IsPublishFor req zone name
    → controller_publish_volume cloud req s ≡ publish_named cloud req zone name s
unfolding controller_publish_volume
publish_valid cloud req zone name s (h, n, v) =
    let a : (req.node_id == "") ≡ false = ground (arith, eq_iff req.node_id "") in
    rw (id-ne-nil req.volume_id h, a, v, h)

pub unpublish_valid :
    (cloud : GceCompute) (req : ControllerUnpublishVolumeRequest) (zone name : String)
    (s : cloud.State)
    → IsUnpublishFor req zone name
    → controller_unpublish_volume cloud req s ≡ unpublish_named cloud req zone name s
unfolding controller_unpublish_volume
unpublish_valid cloud req zone name s (h, n) =
    let a : (req.node_id == "") ≡ false = ground (arith, eq_iff req.node_id "") in
    rw (id-ne-nil req.volume_id h, a, h)

-- The device that is appended decides the check of the mode.
compatible_in-append :
    (name read_write : String) (ds : List AttachedDisk) (a : AttachedDisk)
    → uses name ds ≡ 0
    → (a.device_name == name) ≡ true
    → compatible_in name read_write (ds ++ a ∷ []) ≡ compatible_in name read_write (a ∷ [])
compatible_in-append name read_write [] a h g = refl
compatible_in-append name read_write (d ∷ ds) a h g =
    ground (arith, compatible_in-append name read_write ds a)

modes_same : (r r' : Bool) → r' ≡ r → (read_write_mode r == read_write_mode r') ≡ true
modes_same r r' h = rw h (eq_refl (read_write_mode r))

modes_other : (r r' : Bool) → r' ≢ r → (read_write_mode r == read_write_mode r') ≡ false
modes_other true true h = absurd (h refl)
modes_other true false h = refl
modes_other false true h = refl
modes_other false false h = absurd (h refl)

module _ (name read_write : String) (ds : List AttachedDisk) (a : AttachedDisk) where
  compatible_in_same :
      uses name ds ≡ 0
      → (a.device_name == name) ≡ true
      → (a.mode == read_write) ≡ true
      → compatible_in name read_write (ds ++ a ∷ []) ≡ (true, none)
  compatible_in_same h g m = compatible_in-append name read_write ds a h g ∙ rw (g, m)

  compatible_in_other :
      uses name ds ≡ 0
      → (a.device_name == name) ≡ true
      → (a.mode == read_write) ≡ false
      → compatible_in name read_write (ds ++ a ∷ []) ≡ (
        true,
        some (errorf "disk mode does not match. Got %v. Want %v" (str a.mode (str read_write end))),
      )
  compatible_in_other h g m = compatible_in-append name read_write ds a h g ∙ rw (g, m)

not_attached :
    (name read_write : String) (ds : List AttachedDisk)
    → uses name ds ≡ 0
    → (compatible_in name read_write ds).0 ≡ false
not_attached name read_write ds h = elim (Bool-cases (compatible_in name read_write ds).0) [
  | inl e ↦ absurd (omega (arith, compatible_in_present name read_write ds e))
  | inr e ↦ e
]

-- The cloud after a disk is attached to an instance.
abbrev pub with_attached : FakeCloud → ControllerPublishVolumeRequest → Disk → Instance → FakeCloud
with_attached c req d i = set_disks c req.node_id (i.disks ++ attachment d req.readonly ∷ [])

module _ (c : FakeCloud) (req : ControllerPublishVolumeRequest) (zone name : String) (d : Disk)
    (i : Instance) (valid : IsPublishFor req zone name) (e : lookup name c.disks ≡ some d)
    (f : lookup req.node_id c.instances ≡ some i) (fresh : uses d.name i.disks ≡ 0) where
  -- On the fake cloud, a valid request to publish a disk, on an instance that exists and has no
  -- device of its name, succeeds, appends its attachment in the mode that is asked for, and
  -- changes nothing else.
  pub publish-attaches :
      controller_publish_volume fake_cloud req c ≡ (respond response, with_attached c req d i)
  publish-attaches =
      publish_valid fake_cloud req zone name c valid
      ∙ publish_named_new req c zone name e f
          (not_attached d.name (read_write_mode req.readonly) i.disks fresh)

  pub found_again :
      lookup req.node_id (with_attached c req d i).instances
      ≡ some (record { disks = i.disks ++ attachment d req.readonly ∷ [] })
  found_again = ground (
    arith,
    eq_refl req.node_id,
    lookup-insert req.node_id req.node_id
        (record { disks = i.disks ++ attachment d req.readonly ∷ [] }) c.instances,
  )

  module _ (req' : ControllerPublishVolumeRequest) (valid' : IsPublishFor req' zone name)
      (n : req'.node_id ≡ req.node_id) where
    again :
        lookup req'.node_id (with_attached c req d i).instances
        ≡ some (record { disks = i.disks ++ attachment d req.readonly ∷ [] })
    again = rw n found_again

    -- After a disk is published to an instance that did not have it, a valid request to publish
    -- it there once more in the same mode succeeds and changes nothing.
    pub publish-publish :
        req'.readonly ≡ req.readonly
        → controller_publish_volume fake_cloud req' (with_attached c req d i)
          ≡ (respond response, with_attached c req d i)
    unfolding publish_named Fake.get_disk_or_error Fake.get_instance_or_error
    publish-publish m =
        publish_valid fake_cloud req' zone name (with_attached c req d i) valid'
        ∙ rw (
          e,
          again,
          compatible_in_same d.name (read_write_mode req'.readonly) i.disks
              (attachment d req.readonly) fresh (eq_refl d.name)
              (modes_same req.readonly req'.readonly m),
        )

    -- After a disk is published to an instance that did not have it, a valid request to publish
    -- it there once more in the other mode is answered by `AlreadyExists` and changes nothing.
    pub publish-conflict :
        req'.readonly ≢ req.readonly
        → (code_of (controller_publish_volume fake_cloud req' (with_attached c req d i)).0
            ≡ some already_exists)
          × ((controller_publish_volume fake_cloud req' (with_attached c req d i)).1
              ≡ with_attached c req d i)
    unfolding publish_named Fake.get_disk_or_error Fake.get_instance_or_error
    publish-conflict m =
        rw
          (
            publish_valid fake_cloud req' zone name (with_attached c req d i) valid',
            e,
            again,
            compatible_in_other d.name (read_write_mode req'.readonly) i.disks
                (attachment d req.readonly) fresh (eq_refl d.name)
                (modes_other req.readonly req'.readonly m),
          )
          (refl, refl)
