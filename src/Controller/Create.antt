-- ===== src/Controller/Create.antt =====
-- `CreateVolume` of pkg/gce-csi-driver/controller.go.
pub mod Capacity
pub mod Existing
pub mod Parameters
pub mod Made
use compute_persistent_disk.Prelude.{
  String, Bool, ◌||◌, Option, none, some, List, [], ◌∷◌, is_empty, ◌==◌, if◌then◌else◌,
}
use compute_persistent_disk.Prelude.Int.{ℤ, pos, ltb_ℤ}
use compute_persistent_disk.Go.Strings.{to_lower}
use compute_persistent_disk.Go.Error.{
  Err, status, end, str, error, invalid_argument, internal, Result, ok, err, panic, Reply, panicked,
  respond, fail, status_error,
}
use compute_persistent_disk.Go.Handler.{
  Action, Body, next, ◌>>=◌, ◌>>◌, give, give_if, give_error, call, run, attempt, require,
}
use compute_persistent_disk.Csi.{CapacityRange, CreateVolumeRequest, CreateVolumeResponse}
use compute_persistent_disk.Cloud.{Disk, GceCompute, is_gce_error}
use compute_persistent_disk.Utils.{bytes_to_gb, combine_volume_id}

abbrev pub max_volume_size : ℤ
max_volume_size = pos 64_000_000_000_000

abbrev pub default_volume_size : ℤ
default_volume_size = pos 5_000_000_000

abbrev pub minimum_disk_size_in_gb : ℤ
minimum_disk_size_in_gb = pos 5

abbrev disk_type_standard : String
disk_type_standard = "pd-standard"

abbrev pub disk_type_default : String
disk_type_default = disk_type_standard

unfoldable pub get_request_capacity : Option CapacityRange → ℤ
get_request_capacity none = default_volume_size
get_request_capacity (some range) =
    let cap_bytes =
      if ltb_ℤ (pos 0) range.required_bytes
      then range.required_bytes
      else if ltb_ℤ (pos 0) range.limit_bytes
      then range.limit_bytes
      else pos 0 in
    if ltb_ℤ cap_bytes default_volume_size then default_volume_size else cap_bytes

-- The size of the disk that is inserted for a capacity in bytes.
unfoldable pub disk_size_gb : ℤ → ℤ
unfolding bytes_to_gb
disk_size_gb cap_bytes =
    let size_gb = bytes_to_gb cap_bytes in
    if ltb_ℤ size_gb minimum_disk_size_in_gb then minimum_disk_size_in_gb else size_gb

-- The generated getters of a range that may be nil.
abbrev pub get_required_bytes : Option CapacityRange → ℤ
get_required_bytes none = pos 0
get_required_bytes (some range) = range.required_bytes

abbrev pub get_limit_bytes : Option CapacityRange → ℤ
get_limit_bytes none = pos 0
get_limit_bytes (some range) = range.limit_bytes

-- The loop over the parameters: the disk type and the zone, or the error for a key that is unknown.
unfoldable pub apply_parameters :
    List (String × String) → String → String → Result (String × String)
unfolding to_lower
apply_parameters [] disk_type zone = ok (disk_type, zone)
apply_parameters ((k, v) ∷ ps) disk_type zone =
    let skipped = apply_parameters ps disk_type zone in
    let typed = apply_parameters ps v zone in
    let zoned = apply_parameters ps disk_type v in
    if k == "csiProvisionerSecretName" || k == "csiProvisionerSecretNamespace"
    then skipped
    else if to_lower k == "type"
    then typed
    else if to_lower k == "zone"
    then zoned
    else err (status invalid_argument "invalid option %q" (str k end))

module _ (cloud : GceCompute) where
  open cloud use {State}

  -- What `CreateVolume` does with the result of the insertion and with that of the wait: where the
  -- disk turns out to exist it is validated once more, and used if it fits.
  abbrev created :
      {A : Type 0}
      → Action State (Bool × Option Err)
      → CreateVolumeResponse
      → String
      → Result A
      → Body State (Reply CreateVolumeResponse) A
  created validate resp format (ok a) = λ s. (next a, s)
  created validate resp format (err e) =
      if is_gce_error e "alreadyExists"
      then (do (exists, invalid) ← call validate; give_error invalid; give (respond resp))
      else give (fail (status internal format (error e end)))
  created validate resp format panic = give panicked

  -- `CreateVolume` from the lookup of an existing disk on.
  unfoldable pub provision :
      CreateVolumeRequest → String → String → Action State (Reply CreateVolumeResponse)
  unfolding get_request_capacity is_gce_error disk_size_gb combine_volume_id
  provision req disk_type configured_zone = run do
    let cap_bytes = get_request_capacity req.capacity_range
    let resp : CreateVolumeResponse = record {
      capacity_bytes = cap_bytes;
      id = combine_volume_id configured_zone req.name;
    }
    let validate =
        cloud.get_and_validate_existing_disk configured_zone req.name disk_type
          (get_required_bytes req.capacity_range) (get_limit_bytes req.capacity_range)
    (exists, invalid) ← call validate
    give_error invalid
    give_if exists (respond resp)
    let disk_to_create : Disk = record {
      name = req.name;
      size_gb = disk_size_gb cap_bytes;
      description = "Disk created by GCE-PD CSI Driver";
      type = cloud.get_disk_type_uri configured_zone disk_type;
      kind = "";
    }
    inserted ← call (cloud.insert_disk configured_zone disk_to_create)
    insert_op ← created validate resp "unkown Insert disk error: %v" inserted
    waited ← call (cloud.wait_for_op insert_op configured_zone)
    created validate resp "unkown Insert disk operation error: %v" waited
    give (respond resp)

  unfoldable pub create_volume : CreateVolumeRequest → Action State (Reply CreateVolumeResponse)
  unfolding apply_parameters provision
  create_volume req = run do
    give_if (req.name == "")
        (fail (status_error invalid_argument "CreateVolume Name must be provided"))
    give_if (is_empty req.volume_capabilities)
        (fail (status_error invalid_argument "CreateVolume Volume capabilities must be provided"))
    zone ← attempt cloud.get_zone (λ _. status_error internal "CreateVolume failed to get zone")
    (disk_type, configured_zone) ←
        require (apply_parameters req.parameters disk_type_default zone) (λ e. e)
    call (provision req disk_type configured_zone)
