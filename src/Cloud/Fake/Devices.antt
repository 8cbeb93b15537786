-- ===== src/Cloud/Fake/Devices.antt =====
-- The attached disks of an instance, counted by device name: what the loop of `DetachDisk` finds
-- and what its removal by a swap with the last disk leaves.
use compute_persistent_disk.Prelude.{
  ℕ, zero, suc, ◌+◌, ◌<◌, String, true, ◌≡◌, inl, inr, refl, none, some, List, [], ◌∷◌, ◌++◌, arith,
  get_elem?, get_last?, drop_last, set, ◌==◌, eq_iff, if◌then◌else◌, Bool-cases, Option-cases,
}
use compute_persistent_disk.Cloud.{AttachedDisk}
use compute_persistent_disk.Cloud.Fake.{find_device, remove_found}

-- 1 if the disk has the device name, and 0 if not.
abbrev pub hit : String → AttachedDisk → ℕ
hit name d = if d.device_name == name then 1 else 0

-- The sum of a weight over the disks, and how a write and the removal of the last one change it.
module _ (w : AttachedDisk → ℕ) where
  abbrev pub total : List AttachedDisk → ℕ
  total [] = 0
  total (d ∷ ds) = w d + total ds

  total-append : (ds es : List AttachedDisk) → total (ds ++ es) ≡ total ds + total es
  total-append [] es = omega arith
  total-append (d ∷ ds) es = omega (arith, total-append ds es)

  total-set :
      (ds : List AttachedDisk) (i : ℕ) (d v : AttachedDisk)
      → get_elem? ds i ≡ some d
      → total (set ds i v) + w d ≡ total ds + w v
  total-set [] i d v h = cc
  total-set (e ∷ ds) zero d v h = ground arith
  total-set (e ∷ ds) (suc i) d v h = omega (arith, total-set ds i d v h)

  total-drop_last :
      (ds : List AttachedDisk) (l : AttachedDisk)
      → get_last? ds ≡ some l
      → total (drop_last ds) + w l ≡ total ds
  total-drop_last [] l h = cc
  total-drop_last (d ∷ []) l h = ground arith
  total-drop_last (d ∷ e ∷ ds) l h = omega (arith, total-drop_last (e ∷ ds) l h)

-- How many disks have the device name.
abbrev pub uses : String → List AttachedDisk → ℕ
uses name ds = total (hit name) ds

pub uses-append :
    (name : String) (ds es : List AttachedDisk) → uses name (ds ++ es) ≡ uses name ds + uses name es
uses-append name ds es = total-append (hit name) ds es

get_last?-set :
    (ds : List AttachedDisk) (i : ℕ) (l : AttachedDisk)
    → get_last? ds ≡ some l
    → get_last? (set ds i l) ≡ some l
get_last?-set [] i l h = cc
get_last?-set (d ∷ []) zero l h = refl
get_last?-set (d ∷ []) (suc i) l h = h
get_last?-set (d ∷ e ∷ ds) zero l h = h
get_last?-set (d ∷ e ∷ ds) (suc zero) l h = get_last?-set (e ∷ ds) zero l h
get_last?-set (d ∷ e ∷ ds) (suc (suc i)) l h = get_last?-set (e ∷ ds) (suc i) l h

-- The list is empty or has a last disk.
get_last?-cons :
    (d : AttachedDisk) (ds : List AttachedDisk) → (l : AttachedDisk) × (get_last? (d ∷ ds) ≡ some l)
get_last?-cons d [] = (d, refl)
get_last?-cons d (e ∷ ds) = get_last?-cons e ds

find_device-none :
    (name : String) (ds : List AttachedDisk) → find_device name ds ≡ none → uses name ds ≡ 0
unfolding find_device
find_device-none name [] h = refl
find_device-none name (d ∷ ds) h = ground (arith, find_device-none name ds)

find_device-some :
    (name : String) (ds : List AttachedDisk) (i : ℕ)
    → find_device name ds ≡ some i
    → (d : AttachedDisk) × (get_elem? ds i ≡ some d) × ((d.device_name == name) ≡ true)
unfolding find_device
find_device-some name [] i h = cc
find_device-some name (d ∷ ds) zero h = elim (Bool-cases (d.device_name == name)) [
  | inl e ↦ (d, refl, e)
  | inr e ↦ absurd (ground arith)
]
find_device-some name (d ∷ ds) (suc i) h = find_device-some name ds i (ground arith)

last_of_get_elem? :
    (ds : List AttachedDisk) (i : ℕ) {d : AttachedDisk}
    → get_elem? ds i ≡ some d
    → (l : AttachedDisk) × (get_last? ds ≡ some l)
last_of_get_elem? [] i h = absurd (cc)
last_of_get_elem? (d ∷ ds) i h = get_last?-cons d ds

abbrev pub same : String → String → ℕ
same x y = if x == y then 1 else 0

-- A device that some disk has is found, and one disk of that name is removed: every weight of the
-- disks is less by that of the one removed.
pub remove_found-total :
    (name : String) (ds : List AttachedDisk)
    → 0 < uses name ds
    → (rest : List AttachedDisk) × (d : AttachedDisk) × (remove_found (find_device name ds) ds
        ≡ some rest)
      × ((d.device_name == name) ≡ true)
      × ((w : AttachedDisk → ℕ) → total w rest + w d ≡ total w ds)
unfolding remove_found
remove_found-total name ds p = elim (Option-cases (find_device name ds)) [
  | inl e ↦ absurd (omega (arith, find_device-none name ds e))
  | inr (i, e) ↦
      let (d, at, named) = find_device-some name ds i e in
      let (l, last) = last_of_get_elem? ds i at in
      (
        drop_last (set ds i l),
        d,
        rw (e, remove_found, last),
        named,
        λ w. omega (
          arith,
          total-set w ds i d l at,
          total-drop_last w (set ds i l) l (get_last?-set ds i l last),
        ),
      )
]

-- Of the devices, one of that name is gone.
pub uses_of_totals :
    (name : String) (ds rest : List AttachedDisk) (d : AttachedDisk)
    → (d.device_name == name) ≡ true
    → ((w : AttachedDisk → ℕ) → total w rest + w d ≡ total w ds)
    → (x : String) → uses x rest + same name x ≡ uses x ds
uses_of_totals name ds rest d named totals x =
    ground (arith, totals (hit x), eq_iff d.device_name name, eq_iff d.device_name x, eq_iff name x)
