-- ===== src/Controller/Service/View.antt =====
-- The fake cloud seen as volumes and the modes in which the nodes have them.
use compute_persistent_disk.Prelude.{
  String, not, ◌≡◌, refl, sym, ap, ◌∙◌, inl, inr, Option, none, some, List, arith, ◌==◌, eq_iff,
  is_nil, if◌then◌else◌, Bool-cases,
}
use compute_persistent_disk.Go.Dict.{lookup, insert, erase, lookup-insert, lookup-erase}
use compute_persistent_disk.Cloud.{Disk, AttachedDisk, Instance}
use compute_persistent_disk.Cloud.Fake
use compute_persistent_disk.Cloud.Fake.{FakeCloud, set_disks}
use compute_persistent_disk.Cloud.Fake.Modes.{mode_of}
use compute_persistent_disk.Controller.Service.{Volume, Volumes, Verdict, update, set_mode, at_node}

abbrev pub volume_of_disk : Disk → Volume
volume_of_disk d = record { size_gb = d.size_gb; kind = Fake.last_component d.type }

abbrev pub volume_in : Option Disk → Option Volume
volume_in none = none
volume_in (some d) = some (volume_of_disk d)

abbrev pub mode_in : Option Instance → String → Option String
mode_in none x = none
mode_in (some i) x = mode_of x i.disks

abbrev pub view : FakeCloud → Volumes
view c = record {
  zone = c.zone;
  volume = λ x. volume_in (lookup x c.disks);
  node = λ n. not (is_nil (lookup n c.instances));
  mode = λ n. mode_in (lookup n c.instances);
}

pub pair_path :
    {A B : Type 0} {a a' : A} {b b' : B} → a ≡ a' → b ≡ b' → ◌≡◌ {A = A × B} (a, b) (a', b')
pair_path p q k = (p k, q k)

-- Two abstract states of one default zone with the same functions are equal.
Volumes-path :
    (v w : Volumes)
    → v.zone ≡ w.zone
    → ((x : String) → v.volume x ≡ w.volume x)
    → ((n : String) → v.node n ≡ w.node n)
    → ((n x : String) → v.mode n x ≡ w.mode n x)
    → v ≡ w
Volumes-path v w z p q r k = record {
  zone = z k;
  volume = λ x. p x k;
  node = λ n. q n k;
  mode = λ n x. r n x k;
}

pub view-insert :
    (c : FakeCloud) (name : String) (d : Disk)
    → view (record c { disks = insert name d c.disks })
      ≡ record (view c) { volume = update (view c).volume name (some (volume_of_disk d)) }
view-insert c name d =
    Volumes-path _ _ refl (λ x. ap volume_in (lookup-insert name x d c.disks) ∙ ground (arith))
      (λ n. refl) (λ n x. refl)

pub view-erase :
    (c : FakeCloud) (name : String)
    → view (record c { disks = erase name c.disks })
      ≡ record (view c) { volume = update (view c).volume name none }
view-erase c name =
    Volumes-path _ _ refl (λ x. ap volume_in (lookup-erase name x c.disks) ∙ ground (arith))
      (λ n. refl) (λ n x. refl)

-- Where one device of an instance changes, one mode of the view does.
pub view-set_disks :
    (c : FakeCloud) (node name : String) (i : Instance) (m : Option String) (ds : List AttachedDisk)
    → lookup node c.instances ≡ some i
    → ((x : String) → mode_of x ds ≡ (if name == x then m else mode_of x i.disks))
    → view (set_disks c node ds) ≡ set_mode (view c) node name m
view-set_disks c node name i m ds f h =
    Volumes-path _ _ refl (λ x. refl)
      (λ n. ground (arith, eq_iff node n, lookup-insert node n (record { disks = ds }) c.instances))
      (λ n x.
        ap (λ o. mode_in o x) (lookup-insert node n (record { disks = ds }) c.instances)
        ∙ elim (Bool-cases (node == n)) [ inl e ↦ rw (e, f) (h x) | inr e ↦ rw e ])

-- To set a mode that is so already changes nothing.
pub set_mode-same :
    (c : FakeCloud) (node name : String) (i : Instance) (m : Option String)
    → lookup node c.instances ≡ some i
    → mode_of name i.disks ≡ m
    → set_mode (view c) node name m ≡ view c
set_mode-same c node name i m f h =
    Volumes-path _ _ refl (λ x. refl) (λ n. refl)
      (λ n x. elim (Bool-cases (node == n)) [
        | inl e ↦
            let there = ap (λ k. lookup k c.instances) ((eq_iff node n).0 e) in
            elim (Bool-cases (name == x)) [
              | inl g ↦
                  rw (e, g)
                    (sym h
                      ∙ ap (λ o. mode_in o name) (sym f ∙ there)
                      ∙ ap (mode_in (lookup n c.instances)) ((eq_iff name x).0 g))
              | inr g ↦ rw (e, g) (ap (λ o. mode_in o x) there)
            ]
        | inr e ↦ rw e
      ])

-- A volume and a node that are there.
pub at_node-view :
    (c : FakeCloud) (node name : String) (d : Disk) (i : Instance) (r : Verdict × Volumes)
    → lookup name c.disks ≡ some d
    → lookup node c.instances ≡ some i
    → at_node (view c) node name r ≡ r
at_node-view c node name d i r e f = rw (e, f) refl
