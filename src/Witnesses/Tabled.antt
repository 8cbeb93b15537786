-- ===== src/Witnesses/Tabled.antt =====
-- A machine that is a mount table with one disk, which is blank or has a file system.
use Prim.Native.String.{◌∷◌ as ◌▹◌}
use text.Mathlib.TextLemmas.{cons-append}
use compute_persistent_disk.Prelude.{
  ℕ, String, ◌<>◌, code, ◌≡◌, ◌≢◌, sym, ap, ◌∙◌, Bool, true, false, ◌||◌, refl, inl, inr, Option,
  none, some, List, [], ◌∷◌, ◌==◌, eq_iff, nat_eq, if◌then◌else◌, arith, Bool-cases, get_last?,
  get_elem?,
}
use compute_persistent_disk.Go.Error.{Err, foreign, exit_error, answer}
use compute_persistent_disk.Mount.Commands.{make_mount_args}
use compute_persistent_disk.Mount.Gce.{Os}
use compute_persistent_disk.Mount.Table.{
  Table, set_stack, is_seen, Adds, added, not_added, Takes, taken, not_taken,
}
use compute_persistent_disk.Mount.Table.Machine.{
  Mounts, Spares, LooksAs, fsck, lsblk, mkfs, udevadm, devices,
}

abbrev pub last_of : List String → String
last_of args = elim (get_last? args) [ none ↦ "" | some target ↦ target ]

abbrev pub source_of : List String → String
source_of args = elim (get_elem? args 4) [ none ↦ "" | some source ↦ source ]

-- Whether a mount is a bind.
abbrev pub is_bind : List String → Bool
is_bind args = elim (get_elem? args 3) [
  | none ↦ false
  | some options ↦ options == "bind" || options == "bind,ro"
]

-- The code of the second character, which tells mkfs from the other commands.
abbrev pub second_code : String → ℕ
second_code (c ▹ (d ▹ s)) = code d
second_code s = 0

-- The mounts, and whether the disk has a file system.
abbrev pub Tabled : Type 0
Tabled = Table × Bool

abbrev pub take_off : String → List Bool → Tabled → (String × Option Err) × Tabled
take_off target [] w = (("", some (foreign "not mounted")), w)
take_off target (seen ∷ below) (t, f) = (("", none), (set_stack target below t, f))

abbrev pub put_on : String → Bool → Bool → Tabled → (String × Option Err) × Tabled
put_on target seen true (t, f) = (("", none), (set_stack target (seen ∷ t target) t, f))
put_on target seen false w = (("", some (foreign "exit status 32")), w)

-- A bind lies on the device on which its source lies, and any other mount on the disk.
abbrev pub is_on_disk : List String → Table → Bool
is_on_disk args t = if is_bind args then is_seen (t (source_of args)) else true

abbrev pub exec : String → List String → Tabled → (String × Option Err) × Tabled
exec command args (t, f) =
    if command == "mount"
    then put_on (last_of args) (is_on_disk args t) (f || is_bind args) (t, f)
    else if command == "umount"
    then take_off (last_of args) (t (last_of args)) (t, f)
    else if command == "lsblk"
    then ((if f then "ext4\n" else "\n", none), (t, f))
    else if command == "fsck"
    then (("", if f then none else some (exit_error 8)), (t, f))
    else if nat_eq (second_code command) b'k'
    then (("", none), (t, true))
    else (("", none), (t, f))

-- All places lie on one device, and the disk is another: the last mount on a place is seen where it is
-- of the disk.
abbrev pub tabled : Os
tabled = record {
  State = Tabled;
  stat = λ path w. (answer (if is_seen (w.0 path) then 2 else 1), w);
  lstat = λ path w. (answer 1, w);
  mkdir_all = λ path perm w. (none, w);
  remove = λ path w. (none, w);
  exec_run = exec;
  glob = λ pattern w. (([], none), w);
  eval_symlinks = λ path w. (answer path, w);
}

pub last_of_mount :
    (source target fstype : String) (options : List String)
    → last_of (make_mount_args source target fstype options) ≡ target
unfolding make_mount_args
last_of_mount source target fstype options = ground arith

pub put_on-Adds :
    (target : String) (seen b : Bool) (w : Tabled)
    → Adds target w.0 (put_on target seen b w).0.1 (put_on target seen b w).1.0
put_on-Adds target seen true w = added seen
put_on-Adds target seen false w = not_added _

pub take_off-Takes :
    (target : String) (w : Tabled) (stack : List Bool)
    → w.0 target ≡ stack
    → Takes target w.0 (take_off target stack w).0.1 (take_off target stack w).1.0
take_off-Takes target w [] h = not_taken _
take_off-Takes target w (seen ∷ below) h = taken seen below h

second_code-mkfs : (fstype : String) → second_code ("mkfs." <> fstype) ≡ b'k'
second_code-mkfs fstype = rw (cons-append "m" "kfs." fstype, cons-append "k" "fs." fstype) refl

ne_mkfs :
    (fstype command : String)
    → second_code command ≢ b'k'
    → (("mkfs." <> fstype) == command) ≡ false
ne_mkfs fstype command n = elim (Bool-cases (("mkfs." <> fstype) == command)) [
  | inr e ↦ e
  | inl e ↦ absurd (
      n (sym (ap second_code ((eq_iff ("mkfs." <> fstype) command).0 e)) ∙ second_code-mkfs fstype))
]

pub exec-mkfs :
    (fstype : String) (args : List String) (w : Tabled)
    → exec ("mkfs." <> fstype) args w ≡ (("", none), (w.0, true))
exec-mkfs fstype args w =
    rw
      (
        ne_mkfs fstype "mount" (omega arith),
        ne_mkfs fstype "umount" (omega arith),
        ne_mkfs fstype "lsblk" (omega arith),
        ne_mkfs fstype "fsck" (omega arith),
        second_code-mkfs fstype,
      )
      refl

pub exec-Spares :
    (command : String) (args : List String) (w : Tabled)
    → Spares command
    → (exec command args w).1.0 ≡ w.0
exec-Spares _ args w fsck = refl
exec-Spares _ args w lsblk = refl
exec-Spares _ args w udevadm = refl
exec-Spares _ args w (mkfs fstype) =
    ap (λ (r : (String × Option Err) × Tabled). r.1.0) (exec-mkfs fstype args w)

pub looks_tabled :
    (stack : List Bool) → LooksAs stack (answer (if is_seen stack then 2 else 1)) (answer 1)
looks_tabled stack = devices stack _ 1 (ground arith)

pub mount_tabled :
    (source target fstype : String) (options : List String) (w : Tabled)
    → Adds target w.0
        (exec "mount" (make_mount_args source target fstype options) w).0.1
        (exec "mount" (make_mount_args source target fstype options) w).1.0
mount_tabled source target fstype options w =
    rw (last_of_mount source target fstype options) (put_on-Adds target _ _ w)

abbrev pub tabled_mounts : Mounts tabled
tabled_mounts = record {
  place = λ path. path;
  stacks = λ w. w.0;
  plain = λ options. true;
  known = λ path. true;
  bind_is_plain = λ readonly. refl;
  defaults_is_plain = λ options h. refl;
  looks = λ file w k. looks_tabled (w.0 file);
  mount = λ source target fstype options w h k. mount_tabled source target fstype options w;
  umount = λ target w k. take_off-Takes target w (w.0 target) refl;
  spares = exec-Spares;
  stat_keeps = λ file w. refl;
  lstat_keeps = λ file w. refl;
  mkdir_keeps = λ path perm w. refl;
  remove_keeps = λ path w. refl;
  glob_keeps = λ pattern w. refl;
  eval_keeps = λ path w. refl;
}
