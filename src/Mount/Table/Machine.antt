-- ===== src/Mount/Table/Machine.antt =====
-- The machine on which pkg/mount-manager runs, as a mount table: what is assumed of its commands and files.
use compute_persistent_disk.Prelude.{
  ℕ, String, ◌<>◌, Bool, true, false, not, ◌≡◌, List, [], ◌∷◌, ◌++◌, nat_eq, if◌then◌else◌,
}
use compute_persistent_disk.Go.Error.{Err, not_exist, Answer, answer, refused, is_not_exist}
use compute_persistent_disk.Mount.Commands.{make_mount_args}
use compute_persistent_disk.Mount.Gce.{Os}
use compute_persistent_disk.Mount.Table.{Table, is_seen, Adds, Takes}

-- What `os.Stat` of a path and `os.Lstat` of its `..` tell of the mounts on it: both lie on one device,
-- where there is no mount and where the last one is not seen, and else on two.
pub data LooksAs : List Bool → Answer ℕ → Answer ℕ → Type 0 where
  devices :
      (stack : List Bool) (dev root_dev : ℕ)
      → nat_eq dev root_dev ≡ not (is_seen stack)
      → LooksAs stack (answer dev) (answer root_dev)
  no_file : (root : Answer ℕ) → LooksAs [] (refused not_exist) root
  no_stat :
      (stack : List Bool) (e : Err) (root : Answer ℕ)
      → is_not_exist e ≡ false
      → LooksAs stack (refused e) root
  no_root :
      (stack : List Bool) (dev : ℕ) (e : Err)
      → is_not_exist e ≡ false
      → LooksAs stack (answer dev) (refused e)

-- The commands that leave the mounts as they are.
pub data Spares : String → Type 0 where
  fsck : Spares "fsck"
  lsblk : Spares "lsblk"
  mkfs : (fstype : String) → Spares ("mkfs." <> fstype)
  udevadm : Spares "udevadm"

-- What is assumed of a machine, for paths of which none lies below another: a mount on a directory
-- changes what the paths below it lead to.
pub record Mounts (os : Os) : Type 0 where
  pub place : String → String
  pub stacks : os.State → Table
  pub plain : List String → Bool
  pub known : String → Bool
  pub bind_is_plain :
      (readonly : Bool) → plain (if readonly then "bind" ∷ "ro" ∷ [] else "bind" ∷ []) ≡ true
  pub defaults_is_plain :
      (options : List String) → plain options ≡ true → plain (options ++ "defaults" ∷ []) ≡ true
  pub looks :
      (file : String) (s : os.State)
      → known file ≡ true
      → LooksAs
          (stacks s (place file))
          (os.stat file s).0
          (os.lstat (file <> "/..") (os.stat file s).1).0
  pub mount :
      (source target fstype : String) (options : List String) (s : os.State)
      → plain options ≡ true
      → known target ≡ true
      → Adds
          (place target)
          (stacks s)
          (os.exec_run "mount" (make_mount_args source target fstype options) s).0.1
          (stacks (os.exec_run "mount" (make_mount_args source target fstype options) s).1)
  pub umount :
      (target : String) (s : os.State)
      → known target ≡ true
      → Takes
          (place target)
          (stacks s)
          (os.exec_run "umount" (target ∷ []) s).0.1
          (stacks (os.exec_run "umount" (target ∷ []) s).1)
  pub spares :
      (command : String) (args : List String) (s : os.State)
      → Spares command
      → stacks (os.exec_run command args s).1 ≡ stacks s
  pub stat_keeps : (file : String) (s : os.State) → stacks (os.stat file s).1 ≡ stacks s
  pub lstat_keeps : (file : String) (s : os.State) → stacks (os.lstat file s).1 ≡ stacks s
  pub mkdir_keeps :
      (path : String) (perm : ℕ) (s : os.State) → stacks (os.mkdir_all path perm s).1 ≡ stacks s
  pub remove_keeps : (path : String) (s : os.State) → stacks (os.remove path s).1 ≡ stacks s
  pub glob_keeps : (pattern : String) (s : os.State) → stacks (os.glob pattern s).1 ≡ stacks s
  pub eval_keeps : (path : String) (s : os.State) → stacks (os.eval_symlinks path s).1 ≡ stacks s
