-- ===== src/Cloud/Fake/Changes.antt =====
-- The states of the fake cloud: what holds of each of them, and the changes that keep it.
use compute_persistent_disk.Prelude.{
  ◌≤◌, ◌+◌, String, ◌≡◌, some, List, [], ◌∷◌, ◌++◌, arith, eq_iff,
}
use compute_persistent_disk.Go.Dict.{lookup, insert, erase, lookup-insert, lookup-erase}
use compute_persistent_disk.Cloud.{Disk, AttachedDisk, Instance}
use compute_persistent_disk.Cloud.Fake.{FakeCloud, set_disks}
use compute_persistent_disk.Cloud.Fake.Devices.{uses, uses-append, same}

-- Every disk is stored under its own name, and no instance has two disks of one device name.
pub record IsWellFormed (c : FakeCloud) : Type 0 where
  pub keyed : (k : String) (d : Disk) → lookup k c.disks ≡ some d → d.name ≡ k
  pub distinct : (n x : String) (i : Instance) → lookup n c.instances ≡ some i → uses x i.disks ≤ 1

-- A change of the cloud by one RPC of the controller.
pub data Change (c : FakeCloud) : FakeCloud → Type 0 where
  unchanged : Change c c
  created : (d : Disk) → Change c (record c { disks = insert d.name d c.disks })
  deleted : (name : String) → Change c (record c { disks = erase name c.disks })
  attached :
      (node : String) (i : Instance) (a : AttachedDisk)
      → lookup node c.instances ≡ some i
      → uses a.device_name i.disks ≡ 0
      → Change c (set_disks c node (i.disks ++ a ∷ []))
  detached :
      (node : String) (i : Instance) (name : String) (rest : List AttachedDisk)
      → lookup node c.instances ≡ some i
      → ((x : String) → uses x rest + same name x ≡ uses x i.disks)
      → Change c (set_disks c node rest)

uses-attach :
    (a : AttachedDisk) (ds : List AttachedDisk)
    → uses a.device_name ds ≡ 0
    → ((x : String) → uses x ds ≤ 1)
    → (x : String) → uses x (ds ++ a ∷ []) ≤ 1
uses-attach a ds fresh h x = ground (arith, uses-append x ds (a ∷ []), h x, eq_iff a.device_name x)

set_disks-IsWellFormed :
    {c : FakeCloud} (node : String) (ds : List AttachedDisk)
    → ((x : String) → uses x ds ≤ 1)
    → IsWellFormed c
    → IsWellFormed (set_disks c node ds)
set_disks-IsWellFormed {c} node ds h w = record {
  keyed = w.keyed;
  distinct = λ n x i e.
      ground
        (arith, h x, w.distinct n x i, lookup-insert node n (record { disks = ds }) c.instances);
}

-- Every change keeps a cloud well-formed.
pub Change-IsWellFormed : {c c' : FakeCloud} → Change c c' → IsWellFormed c → IsWellFormed c'
Change-IsWellFormed unchanged w = w
Change-IsWellFormed {c} (created d) w = record {
  keyed = λ k e h. ground (arith, w.keyed k e, eq_iff d.name k, lookup-insert d.name k d c.disks);
  distinct = w.distinct;
}
Change-IsWellFormed {c} (deleted name) w = record {
  keyed = λ k e h. ground (arith, w.keyed k e, eq_iff name k, lookup-erase name k c.disks);
  distinct = w.distinct;
}
Change-IsWellFormed (attached node i a e fresh) w =
    set_disks-IsWellFormed node (i.disks ++ a ∷ [])
      (uses-attach a i.disks fresh (λ x. w.distinct node x i e)) w
Change-IsWellFormed (detached node i name rest e h) w =
    set_disks-IsWellFormed node rest (λ x. omega (arith, h x, w.distinct node x i e)) w
