-- ===== src/Witnesses/Values.antt =====
-- Volume IDs, sizes, requests that are rejected, and a driver that is set up.
use compute_persistent_disk.Prelude.{
  String, ◌≡◌, ◌≢◌, ◌⊎◌, ◌↔◌, refl, none, some, [], ◌∷◌, arith, ◌≤◌, ◌^◌, ◌*◌, ◌%◌,
}
use compute_persistent_disk.Prelude.Int.{pos, ◌≤ℤ◌}
use compute_persistent_disk.Go.Error.{ok}
use compute_persistent_disk.Csi.{CapacityRange, CreateVolumeRequest}
use compute_persistent_disk.Utils.{gb_to_bytes, split_zone_name_id}
use compute_persistent_disk.Utils.VolumeId.{IsIdOf, split_zone_name_id_iff}
use compute_persistent_disk.Cloud.{Disk}
use compute_persistent_disk.Cloud.Fake.{FakeCloud}
use compute_persistent_disk.Cloud.Provider.{validate_existing, last_component}
use compute_persistent_disk.Cloud.Provider.Existing.{validate_existing_iff}
use compute_persistent_disk.Controller.Create.{
  get_request_capacity, disk_size_gb, default_volume_size, get_required_bytes, get_limit_bytes,
}
use compute_persistent_disk.Go.Strings.{to_lower, split_two}
use compute_persistent_disk.Go.Error.{answer}
use compute_persistent_disk.Controller.Create.{apply_parameters}
use compute_persistent_disk.Controller.Create.Parameters.{IsOk, AllKnown, apply_parameters_iff}
use compute_persistent_disk.Driver.Server.{parse_endpoint}
use compute_persistent_disk.Controller.Create.Capacity.{
  get_request_capacity_bounds, disk_size_gb-covers_iff,
}

split_zone_name_id_iff_example : (split_zone_name_id "z/v" ≡ ok ("z", "v")) ↔ IsIdOf "z/v" "z" "v"
split_zone_name_id_iff_example = split_zone_name_id_iff "z/v" "z" "v"

abbrev no_text : String
no_text = ""

abbrev pd_ssd : String
pd_ssd = "pd-ssd"

abbrev disk : Disk
disk = record {
  name = "v";
  size_gb = pos 5;
  description = "";
  type = "zones/z/diskTypes/pd-ssd";
  kind = "";
}

validate_existing_iff_example :
    ((validate_existing disk pd_ssd (pos 1) (pos 6_000_000_000)).1 ≡ none) ↔ (
      (pos 1 ≢ pos 0)
      × (pos 6_000_000_000 ≢ pos 0)
      × (pos 1 ≤ℤ gb_to_bytes disk.size_gb)
      × (gb_to_bytes disk.size_gb ≤ℤ pos 6_000_000_000)
      × ((last_component disk.type ≢ pd_ssd)
          ⊎ ((pd_ssd ≡ "") × (last_component disk.type ≡ "pd-standard"))))
validate_existing_iff_example = validate_existing_iff disk pd_ssd (pos 1) (pos 6_000_000_000)

abbrev range : CapacityRange
range = record { required_bytes = pos 0; limit_bytes = pos 1_000 }

get_request_capacity_bounds_example :
    (default_volume_size ≤ℤ get_request_capacity (some range))
    × (get_required_bytes (some range) ≤ℤ get_request_capacity (some range))
    × ((get_request_capacity (some range) ≡ default_volume_size)
        ⊎ (get_request_capacity (some range) ≡ get_required_bytes (some range))
        ⊎ ((get_request_capacity (some range) ≡ get_limit_bytes (some range))
            × (get_required_bytes (some range) ≤ℤ pos 0)))
get_request_capacity_bounds_example = get_request_capacity_bounds (some range)

disk_size_gb-covers_iff_example :
    (pos 6_000_000_000
      ≤ℤ gb_to_bytes (
          disk_size_gb (
            get_request_capacity
              (some (record { required_bytes = pos 6_000_000_000; limit_bytes = pos 0 })))))
    ↔ ((6_000_000_000 ≤ 5 * 2 ^ 30) ⊎ (6_000_000_000 % 2 ^ 30 ≡ 0))
disk_size_gb-covers_iff_example =
    disk_size_gb-covers_iff 6_000_000_000 (pos 0) (omega arith) (omega arith)

abbrev empty : FakeCloud
empty = record { project = "p"; zone = "z"; disks = []; instances = [] }

abbrev unnamed : CreateVolumeRequest
unnamed = record { name = ""; capacity_range = none; volume_capabilities = []; parameters = [] }

apply_parameters_iff_example :
    IsOk (apply_parameters (("type", "pd-ssd") ∷ []) "pd-standard" "z")
    ↔ AllKnown (("type", "pd-ssd") ∷ [])
apply_parameters_iff_example = apply_parameters_iff (("type", "pd-ssd") ∷ []) "pd-standard" "z"

zone_applied : apply_parameters (("zone", "y") ∷ []) "pd-standard" "z" ≡ ok ("pd-standard", "y")
unfolding apply_parameters
zone_applied = refl

upper_type : to_lower "Type" ≡ "type"
unfolding to_lower
upper_type = refl

socket : parse_endpoint "unix://csi.sock" ≡ answer ("unix", "csi.sock")
unfolding parse_endpoint split_two to_lower
socket = refl
