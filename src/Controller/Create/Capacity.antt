-- ===== src/Controller/Create/Capacity.antt =====
-- The size of a new volume: `getRequestCapacity` and the size of the disk that is inserted.
use Prim.Native.Nat.{max}
use compute_persistent_disk.Prelude.{
  ℕ, ◌-◌, ◌*◌, ◌/◌, ◌%◌, ◌^◌, ◌≤◌, ◌<◌, ◌≡◌, ◌↔◌, ◌⊎◌, Option, some, arith, ap,
}
use compute_persistent_disk.Prelude.Int.{ℤ, pos, ◌≤ℤ◌, ◌<ℤ◌}
use compute_persistent_disk.Utils.{gb_to_bytes}
use compute_persistent_disk.Utils.Capacity.{gb_to_bytes_in_range}
use compute_persistent_disk.Csi.{CapacityRange}
use compute_persistent_disk.Controller.Create.{
  get_request_capacity, default_volume_size, disk_size_gb, get_required_bytes, get_limit_bytes,
}

-- The capacity of a new volume is at least the default and at least the required bytes. It is one
-- of these two, or the limit where no bytes are required.
pub get_request_capacity_bounds :
    (range : Option CapacityRange)
    → (default_volume_size ≤ℤ get_request_capacity range)
      × (get_required_bytes range ≤ℤ get_request_capacity range)
      × ((get_request_capacity range ≡ default_volume_size)
          ⊎ (get_request_capacity range ≡ get_required_bytes range)
          ⊎ ((get_request_capacity range ≡ get_limit_bytes range)
              × (get_required_bytes range ≤ℤ pos 0)))
unfolding get_request_capacity
get_request_capacity_bounds range = ground arith

-- Where the limit is above 0, below the default, and no less than the required bytes, the
-- capacity is above the limit.
pub get_request_capacity_over_limit :
    (range : CapacityRange)
    → pos 0 <ℤ range.limit_bytes
    → range.limit_bytes <ℤ default_volume_size
    → range.required_bytes ≤ℤ range.limit_bytes
    → range.limit_bytes <ℤ get_request_capacity (some range)
unfolding get_request_capacity
get_request_capacity_over_limit range p q r = ground arith

-- A disk has at least 5 GiB.
disk_size_gb_of_pos : (b : ℕ) → disk_size_gb (pos b) ≡ pos (max 5 (b / 2 ^ 30))
unfolding disk_size_gb
disk_size_gb_of_pos b = ground arith

-- The size of the disk in bytes: whole GiB.
disk_bytes :
    (b : ℕ)
    → b < 2 ^ 63
    → gb_to_bytes (disk_size_gb (pos b)) ≡ pos (max (5 * 2 ^ 30) (b - b % 2 ^ 30))
disk_bytes b h =
    rw (disk_size_gb_of_pos, gb_to_bytes_in_range (max 5 (b / 2 ^ 30)) (omega arith))
      (ap pos (omega arith))

capacity_of_required :
    (b : ℕ) (limit : ℤ)
    → 0 < b
    → get_request_capacity (some (record { required_bytes = pos b; limit_bytes = limit }))
      ≡ pos (max 5_000_000_000 b)
unfolding get_request_capacity
capacity_of_required b limit h = ground arith

-- The disk that is inserted for required bytes above 0, an `int64`, holds them exactly when they
-- are at most 5 GiB or a whole number of GiB.
pub disk_size_gb-covers_iff :
    (b : ℕ) (limit : ℤ)
    → 0 < b
    → b < 2 ^ 63
    → (pos b
        ≤ℤ gb_to_bytes (
            disk_size_gb (
              get_request_capacity
                (some (record { required_bytes = pos b; limit_bytes = limit })))))
      ↔ ((b ≤ 5 * 2 ^ 30) ⊎ (b % 2 ^ 30 ≡ 0))
disk_size_gb-covers_iff b limit p q =
    rw (capacity_of_required b limit p, disk_bytes (max 5_000_000_000 b) (omega arith))
      (omega arith)
