-- ===== src/Mount/Table.antt =====
-- The mount points of a machine, and what a `Mounter` of pkg/mount-manager does to them: an interface of
-- laws, by which the node service is reasoned about.
pub mod Machine
pub mod Formats
pub mod Devices
pub mod Gce
use compute_persistent_disk.Prelude.{
  ℕ, String, Bool, true, false, not, ◌≡◌, refl, Option, none, some, List, [], ◌∷◌, ◌==◌,
  if◌then◌else◌, arith,
}
use compute_persistent_disk.Go.Error.{Err, Answer, is_not_exist}
use compute_persistent_disk.Mount.{Mounter}

-- The mounts that are stacked on a place, which is what a path leads to, the last one first. A mount
-- is seen where it lies on another device than the `..` of its place; a bind of a directory of that
-- device is not.
abbrev pub Table : Type 0
Table = String → List Bool

abbrev pub set_stack : String → List Bool → Table → Table
set_stack target stack t place = if place == target then stack else t place

abbrev pub is_seen : List Bool → Bool
is_seen [] = false
is_seen (seen ∷ below) = seen

-- A check tells whether the last mount is not seen; a path that does not exist has no mount. Other
-- errors tell nothing.
pub data CheckedAs : List Bool → Bool × Option Err → Type 0 where
  told : (stack : List Bool) → CheckedAs stack (not (is_seen stack), none)
  absent : (e : Err) → CheckedAs [] (true, some e)
  unknown :
      (stack : List Bool) (b : Bool) (e : Err)
      → is_not_exist e ≡ false
      → CheckedAs stack (b, some e)

-- A mount that succeeds adds one on the target, seen or not; one that fails changes no mount.
pub data Adds (target : String) (t : Table) : Option Err → Table → Type 0 where
  added : (seen : Bool) → Adds target t none (set_stack target (seen ∷ t target) t)
  not_added : (e : Err) → Adds target t (some e) t

-- An unmount that succeeds takes the last one from the target.
pub data Takes (target : String) (t : Table) : Option Err → Table → Type 0 where
  taken :
      (seen : Bool) (below : List Bool)
      → t target ≡ seen ∷ below
      → Takes target t none (set_stack target below t)
  not_taken : (e : Err) → Takes target t (some e) t

-- `plain` tells the options under which a mount is a new one: `remount`, for one, is not plain.
-- `known` tells the paths of which the table tells, no one of which lies below another one of them.
pub record MountTable (mounter : Mounter) : Type 0 where
  pub place : String → String
  pub stacks : mounter.State → Table
  pub plain : List String → Bool
  pub known : String → Bool
  pub bind_is_plain :
      (readonly : Bool) → plain (if readonly then "bind" ∷ "ro" ∷ [] else "bind" ∷ []) ≡ true
  pub check_tells :
      (file : String) (s : mounter.State)
      → known file ≡ true
      → CheckedAs (stacks s (place file)) (mounter.is_likely_not_mount_point file s).0
  pub check_keeps :
      (file : String) (s : mounter.State)
      → stacks (mounter.is_likely_not_mount_point file s).1 ≡ stacks s
  pub mount_adds :
      (source target fstype : String) (options : List String) (s : mounter.State)
      → plain options ≡ true
      → known target ≡ true
      → Adds
          (place target)
          (stacks s)
          (mounter.do_mount source target fstype options s).0
          (stacks (mounter.do_mount source target fstype options s).1)
  pub format_adds :
      (source target fstype : String) (options : List String) (s : mounter.State)
      → plain options ≡ true
      → known target ≡ true
      → Adds
          (place target)
          (stacks s)
          (mounter.format_and_mount source target fstype options s).0
          (stacks (mounter.format_and_mount source target fstype options s).1)
  pub unmount_takes :
      (target : String) (s : mounter.State)
      → known target ≡ true
      → Takes
          (place target)
          (stacks s)
          (mounter.unmount_volume target s).0.1
          (stacks (mounter.unmount_volume target s).1)
  pub verify_keeps :
      (paths : List String) (s : mounter.State)
      → stacks (mounter.verify_device_path paths s).1 ≡ stacks s
  pub mkdir_keeps :
      (path : String) (perm : ℕ) (s : mounter.State)
      → stacks (mounter.mkdir_all path perm s).1 ≡ stacks s
  pub remove_keeps :
      (path : String) (s : mounter.State) → stacks (mounter.remove path s).1 ≡ stacks s

-- What the error of a check, of a mount or of an unmount says of the mounts.
pub CheckedAs-none :
    {stack : List Bool} {r : Bool × Option Err}
    → CheckedAs stack r
    → r.1 ≡ none
    → r.0 ≡ not (is_seen stack)
CheckedAs-none (told stack) h = refl
CheckedAs-none (absent e) h = absurd (ground (arith, h))
CheckedAs-none (unknown stack b e k) h = absurd (ground (arith, h))

pub CheckedAs-is_not_exist :
    {stack : List Bool} {r : Bool × Option Err} {e : Err}
    → CheckedAs stack r
    → r.1 ≡ some e
    → is_not_exist e ≡ true
    → (is_seen stack ≡ false) × (r.0 ≡ true)
CheckedAs-is_not_exist (told stack) h k = absurd (ground (arith, h))
CheckedAs-is_not_exist (absent f) h k = (refl, refl)
CheckedAs-is_not_exist (unknown stack b f l) h k = absurd (ground (arith, h))

module _ {target : String} {t : Table} where
  pub Adds-none :
      {o : Option Err} {t' : Table}
      → Adds target t o t'
      → o ≡ none
      → (seen : Bool) × (t' ≡ set_stack target (seen ∷ t target) t)
  Adds-none (added seen) h = (seen, refl)
  Adds-none (not_added e) h = absurd (ground (arith, h))

  pub Adds-some : {o : Option Err} {t' : Table} {e : Err} → Adds target t o t' → o ≡ some e → t' ≡ t
  Adds-some (added seen) h = absurd (ground (arith, h))
  Adds-some (not_added f) h = refl

  pub Takes-none :
      {o : Option Err} {t' : Table}
      → Takes target t o t'
      → o ≡ none
      → (seen : Bool) × (below : List Bool) × (t target ≡ seen ∷ below)
        × (t' ≡ set_stack target below t)
  Takes-none (taken seen below k) h = (seen, below, k, refl)
  Takes-none (not_taken e) h = absurd (ground (arith, h))

  pub Takes-some :
      {o : Option Err} {t' : Table} {e : Err} → Takes target t o t' → o ≡ some e → t' ≡ t
  Takes-some (taken seen below k) h = absurd (ground (arith, h))
  Takes-some (not_taken f) h = refl
