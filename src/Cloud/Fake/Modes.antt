-- ===== src/Cloud/Fake/Modes.antt =====
-- The modes in which an instance has its devices.
use compute_persistent_disk.Prelude.{
  ℕ, ◌+◌, ◌≤◌, ◌<◌, String, true, ◌≡◌, ◌↔◌, refl, inl, inr, Option, none, some, List, [], ◌∷◌, ◌++◌,
  arith, ◌==◌, eq_iff, if◌then◌else◌, Option-cases, Bool-cases,
}
use compute_persistent_disk.Cloud.{AttachedDisk}
use compute_persistent_disk.Cloud.Fake.Devices.{uses, total, uses_of_totals}

-- The mode of the first disk with the device name.
abbrev pub mode_of : String → List AttachedDisk → Option String
mode_of x [] = none
mode_of x (d ∷ ds) = if d.device_name == x then some d.mode else mode_of x ds

-- 1 if the disk has the device name and the mode, and 0 if not.
abbrev hit_in : String → String → AttachedDisk → ℕ
hit_in x m d = if d.device_name == x then if d.mode == m then 1 else 0 else 0

pub mode_of-none : (x : String) (ds : List AttachedDisk) → (mode_of x ds ≡ none) ↔ (uses x ds ≡ 0)
mode_of-none x [] = ground arith
mode_of-none x (d ∷ ds) = ground (arith, mode_of-none x ds)

unused_mode : (x m : String) (ds : List AttachedDisk) → uses x ds ≡ 0 → total (hit_in x m) ds ≡ 0
unused_mode x m [] h = refl
unused_mode x m (d ∷ ds) h = ground (arith, unused_mode x m ds)

-- A device that is used once has the mode that is counted once.
mode_of-some :
    (x m : String) (ds : List AttachedDisk)
    → uses x ds ≤ 1
    → (mode_of x ds ≡ some m) ↔ (0 < total (hit_in x m) ds)
mode_of-some x m [] h = ground arith
mode_of-some x m (d ∷ ds) h =
    ground (arith, mode_of-some x m ds, unused_mode x m ds, eq_iff d.mode m)

pub mode_of-append :
    (x : String) (ds : List AttachedDisk) (a : AttachedDisk)
    → uses a.device_name ds ≡ 0
    → mode_of x (ds ++ a ∷ []) ≡ (if a.device_name == x then some a.mode else mode_of x ds)
mode_of-append x [] a h = refl
mode_of-append x (d ∷ ds) a h = ground (
  arith,
  mode_of-append x ds a,
  eq_iff d.device_name x,
  eq_iff a.device_name x,
  eq_iff d.device_name a.device_name,
)

-- Where no device is used twice, the removal of one leaves the modes of the others.
pub mode_of-removed :
    (name : String) (ds rest : List AttachedDisk) (d : AttachedDisk)
    → ((x : String) → uses x ds ≤ 1)
    → (d.device_name == name) ≡ true
    → ((w : AttachedDisk → ℕ) → total w rest + w d ≡ total w ds)
    → (x : String) → mode_of x rest ≡ (if name == x then none else mode_of x ds)
mode_of-removed name ds rest d single named totals x =
    let counts = uses_of_totals name ds rest d named totals in
    elim (Bool-cases (name == x)) [
      | inl e ↦ rw e ((mode_of-none x rest).1 (ground (arith, counts x, single x)))
      | inr n ↦ elim (Option-cases (mode_of x ds)) [
        | inl h ↦ rw (n, h) ((mode_of-none x rest).1 (ground (arith, counts x, mode_of-none x ds)))
        | inr (m, h) ↦
            rw (n, h)
              ((mode_of-some x m rest (ground (arith, counts x, single x))).1 (
                ground (
                  arith,
                  totals (hit_in x m),
                  (mode_of-some x m ds (single x)).0 h,
                  eq_iff d.device_name name,
                  eq_iff d.device_name x,
                  eq_iff name x,
                )))
      ]
    ]
