-- ===== src/Utils.antt =====
-- pkg/utils/utils.go
pub mod VolumeId
pub mod Capacity
use compute_persistent_disk.Prelude.{String, ◌<>◌, ◌*◌, Option, none, some, List, [], ◌∷◌}
use compute_persistent_disk.Prelude.Int.{ℤ, mul64, div64}
use compute_persistent_disk.Go.Strings.{split}
use compute_persistent_disk.Go.Error.{Result, ok, err, errorf, str, end}

unfoldable pub bytes_to_gb : ℤ → ℤ
unfolding div64
bytes_to_gb bytes = div64 bytes (1024 * 1024 * 1024)

unfoldable pub gb_to_bytes : ℤ → ℤ
unfolding mul64
gb_to_bytes gb = mul64 (mul64 (mul64 gb 1024) 1024) 1024

-- `splitId` has length 2, or the function fails.
abbrev zone_and_name : String → List String → Result (String × String)
zone_and_name id (zone ∷ name ∷ []) = ok (zone, name)
zone_and_name id _ =
    err (errorf "Failed to get id components. Expected {zone}/{name}. Got: %s" (str id end))

unfoldable pub split_zone_name_id : String → Result (String × String)
unfolding split
split_zone_name_id id = zone_and_name id (split b'/' id)

unfoldable pub combine_volume_id : String → String → String
combine_volume_id zone name = zone <> ("/" <> name)
