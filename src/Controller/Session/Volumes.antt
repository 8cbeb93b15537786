-- ===== src/Controller/Session/Volumes.antt =====
-- `CreateVolume` and `DeleteVolume`, one after the other.
use compute_persistent_disk.Prelude.{
  String, Option, some, true, false, ◌≡◌, ◌≢◌, refl, none, some, arith, ◌==◌, eq_iff, eq_refl,
  if◌then◌else◌, is_empty,
}
use compute_persistent_disk.Go.Error.{respond, ok}
use compute_persistent_disk.Go.Dict.{lookup, insert, lookup-insert, lookup-erase}
use compute_persistent_disk.Go.Strings.Laws.{Lacks}
use compute_persistent_disk.Csi.{CapacityRange, CreateVolumeRequest, CreateVolumeResponse, response}
use compute_persistent_disk.Utils.{split_zone_name_id, combine_volume_id}
use compute_persistent_disk.Utils.VolumeId.{
  combine_volume_id-ne-nil, split_zone_name_id-slash, split_zone_name_id_iff,
}
use compute_persistent_disk.Cloud.{Disk, GceCompute}
use compute_persistent_disk.Cloud.Fake
use compute_persistent_disk.Cloud.Fake.{FakeCloud, fake_cloud}
use compute_persistent_disk.Controller.Create.{
  create_volume, apply_parameters, disk_size_gb, get_request_capacity, get_required_bytes,
  get_limit_bytes,
}
use compute_persistent_disk.Controller.Delete.{delete_volume, delete_named}
use compute_persistent_disk.Controller.Session.Lifecycle.{id-ne-nil}

-- The disk that `CreateVolume` makes on the fake cloud.
abbrev pub new_disk : CreateVolumeRequest → Disk
new_disk req = record {
  name = req.name;
  size_gb = disk_size_gb (get_request_capacity req.capacity_range);
  description = "Disk created by GCE-PD CSI Driver";
  type = "";
  kind = "";
}

abbrev pub with_disk : FakeCloud → CreateVolumeRequest → FakeCloud
with_disk c req = record c { disks = insert req.name (new_disk req) c.disks }

abbrev pub volume_of : CreateVolumeRequest → String → CreateVolumeResponse
volume_of req zone = record {
  capacity_bytes = get_request_capacity req.capacity_range;
  id = combine_volume_id zone req.name;
}

-- A disk of the fake cloud has no type, and fits where no size is asked for.
validate_unlimited :
    (req : CreateVolumeRequest) (disk_type : String) (range : Option CapacityRange)
    → range ≡ none
    → disk_type ≢ ""
    → Fake.validate_existing
        (new_disk req)
        disk_type
        (get_required_bytes range)
        (get_limit_bytes range)
      ≡ (true, none)
unfolding Fake.validate_existing
validate_unlimited req disk_type none r t = ground (arith, eq_iff "" disk_type, eq_iff disk_type "")
validate_unlimited req disk_type (some range) r t = cc

module _ (c : FakeCloud) (req : CreateVolumeRequest) (disk_type zone : String)
    (named : req.name ≢ "") (capable : is_empty req.volume_capabilities ≡ false)
    (parameters : apply_parameters req.parameters "pd-standard" c.zone ≡ ok (disk_type, zone))
    (absent : lookup req.name c.disks ≡ none) where
  stored : lookup req.name (with_disk c req).disks ≡ some (new_disk req)
  stored = ground (arith, eq_refl req.name, lookup-insert req.name req.name (new_disk req) c.disks)

  -- After `CreateVolume` has made a disk on the fake cloud, the same request, if it has no
  -- capacity range and asks for a disk type that is not the empty text, is answered as the first
  -- one was and changes nothing.
  pub create_volume_again :
      req.capacity_range ≡ none
      → disk_type ≢ ""
      → create_volume fake_cloud req (with_disk c req)
        ≡ (respond (volume_of req zone), with_disk c req)
  unfolding create_volume Fake.get_and_validate_existing_disk
  create_volume_again r t =
      let a : (req.name == "") ≡ false = ground (arith, eq_iff req.name "") in
      rw (a, capable, parameters, stored, validate_unlimited req disk_type req.capacity_range r t)

module _ (cloud : GceCompute) (s : cloud.State) where
  -- Over any cloud, the ID of a volume whose name holds a slash, and whose zone does not, is
  -- taken for that of no volume: its deletion is answered as a success and leaves the state as it
  -- is.
  pub delete_volume-slash :
      (zone name : String)
      → Lacks b'/' zone
      → ¬ Lacks b'/' name
      → delete_volume cloud (record { volume_id = combine_volume_id zone name }) s
        ≡ (respond response, s)
  unfolding delete_volume
  delete_volume-slash zone name z n =
      rw (combine_volume_id-ne-nil zone name, split_zone_name_id-slash zone name z n)

  delete_volume_valid :
      (zone name : String)
      → Lacks b'/' zone
      → Lacks b'/' name
      → delete_volume cloud (record { volume_id = combine_volume_id zone name }) s
        ≡ delete_named cloud zone name s
  unfolding delete_volume
  delete_volume_valid zone name z n =
      let id = combine_volume_id zone name in
      let h : split_zone_name_id id ≡ ok (zone, name) =
        (split_zone_name_id_iff id zone name).1 (refl, z, n) in
      rw (id-ne-nil id h, h)

-- On the fake cloud, deleting a volume by the ID that is made of its zone and name, neither of
-- which holds a slash, succeeds, removes the disk of that name if there is one, and changes no
-- other disk and no instance.
pub delete-create :
    (c : FakeCloud) (zone name k : String)
    → Lacks b'/' zone
    → Lacks b'/' name
    → let answered =
        delete_volume fake_cloud (record { volume_id = combine_volume_id zone name }) c in
      (answered.0 ≡ respond response)
      × (lookup k answered.1.disks ≡ (if name == k then none else lookup k c.disks))
      × (answered.1.instances ≡ c.instances)
unfolding delete_named Fake.delete_disk
delete-create c zone name k z n =
    rw (delete_volume_valid fake_cloud c zone name z n) (refl, lookup-erase name k c.disks, refl)
