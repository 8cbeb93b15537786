-- ===== src/Utils/Capacity.antt =====
-- Sizes in bytes and in GiB: `BytesToGb` and `GbToBytes` of pkg/utils/utils.go on `int64`.
use compute_persistent_disk.Prelude.{ℕ, ◌-◌, ◌*◌, ◌/◌, ◌%◌, ◌^◌, ◌<◌, ◌≡◌, refl, arith, ap, ◌∙◌}
use compute_persistent_disk.Prelude.Int.{ℤ, pos, mul64}
use compute_persistent_disk.Utils.{bytes_to_gb, gb_to_bytes}

mul64_in_range : (n k : ℕ) → n * k < 2 ^ 63 → mul64 (pos n) k ≡ pos (n * k)
unfolding mul64
mul64_in_range n k h = ground arith

gb_to_bytes_chain : (gb : ℤ) → gb_to_bytes gb ≡ mul64 (mul64 (mul64 gb 1024) 1024) 1024
unfolding gb_to_bytes
gb_to_bytes_chain gb = refl

-- `GbToBytes` is exact below 2 ^ 33 GiB.
pub gb_to_bytes_in_range : (n : ℕ) → n < 2 ^ 33 → gb_to_bytes (pos n) ≡ pos (n * 2 ^ 30)
gb_to_bytes_in_range n h =
    rw
      (
        gb_to_bytes_chain,
        mul64_in_range n 1024 (omega arith),
        mul64_in_range (n * 1024) 1024 (omega arith),
        mul64_in_range (n * 1024 * 1024) 1024 (omega arith),
      )
      (ap pos (omega arith))

-- Below 2 ^ 33 GiB, a number of GiB comes back from its bytes.
pub bytes_to_gb-gb_to_bytes : (n : ℕ) → n < 2 ^ 33 → bytes_to_gb (gb_to_bytes (pos n)) ≡ pos n
unfolding bytes_to_gb
bytes_to_gb-gb_to_bytes n h = rw (gb_to_bytes_in_range n h) (ap pos (omega arith))

-- Through `BytesToGb` and back an amount of bytes below 2 ^ 63 loses exactly what it has beyond
-- whole GiB.
pub gb_to_bytes-bytes_to_gb :
    (b : ℕ) → b < 2 ^ 63 → gb_to_bytes (bytes_to_gb (pos b)) ≡ pos (b - b % 2 ^ 30)
unfolding bytes_to_gb
gb_to_bytes-bytes_to_gb b h = gb_to_bytes_in_range (b / 2 ^ 30) (omega arith) ∙ ap pos (omega arith)
