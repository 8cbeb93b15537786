-- ===== src/Mount/Table/Formats.antt =====
-- The mounts by `GCEMounter` of pkg/mount-manager/mounter.go, and the mount table of the machine.
use compute_persistent_disk.Prelude.{
  String, ◌<>◌, true, ◌≡◌, ◌∙◌, subst, inl, inr, Option, List, [], ◌∷◌, ◌++◌, ◌==◌, if◌then◌else◌,
  Option-cases, Bool-cases,
}
use compute_persistent_disk.Go.Error.{Err, Answer-cases}
use compute_persistent_disk.Go.Handler.{Flow, returned}
use compute_persistent_disk.Mount.Commands.{make_mount_args, fsck_error, mkfs_args}
use compute_persistent_disk.Mount.Gce.{
  Os, do_mount, get_disk_format, format_and_retry, recover_mount, format_and_mount,
}
use compute_persistent_disk.Mount.Table.{Adds, not_added, Adds-some}
use compute_persistent_disk.Mount.Table.Machine.{Mounts, fsck, lsblk, mkfs}

module _ (os : Os) (mounts : Mounts os) where
  open mounts use {place, stacks, plain, known, mount, spares}

  -- From one state to another, where the mounts at the start are the same.
  abbrev AddsFrom : os.State → String → Option Err × os.State → Type 0
  AddsFrom s target (e, after) = Adds (place target) (stacks s) e (stacks after)

  from :
      {target : String} {r : Option Err × os.State} (s t : os.State)
      → stacks t ≡ stacks s
      → AddsFrom t target r
      → AddsFrom s target r
  from {target = target} {r = r} s t h = subst (λ d. Adds (place target) d r.0 (stacks r.1)) h

  pub do_mount_adds :
      (source target fstype : String) (options : List String) (s : os.State)
      → plain options ≡ true
      → known target ≡ true
      → AddsFrom s target (do_mount os source target fstype options s)
  unfolding do_mount
  do_mount_adds source target fstype options s h k =
      let args = make_mount_args source target fstype options in
      let ran = os.exec_run "mount" args s in
      elim (Option-cases ran.0.1) [
        | inl e ↦ rw e (
            subst (λ o. Adds (place target) (stacks s) o (stacks ran.1)) e
              (mount source target fstype options s h k))
        | inr (failure, e) ↦
            rw (e, Adds-some (mount source target fstype options s h k) e) (not_added _)
      ]

  get_disk_format_keeps :
      (disk : String) (s : os.State) → stacks (get_disk_format os disk s).1 ≡ stacks s
  unfolding get_disk_format
  get_disk_format_keeps disk s = spares "lsblk" ("-n" ∷ "-o" ∷ "FSTYPE" ∷ disk ∷ []) s lsblk

  -- The end of a body that returns an error or none.
  abbrev AddsBody : os.State → String → Flow (Option Err) (Option Err) × os.State → Type 0
  AddsBody s target (r, after) = AddsFrom s target (returned r, after)

  format_and_retry_adds :
      (source target fstype : String) (options : List String) (s : os.State)
      → plain options ≡ true
      → known target ≡ true
      → AddsBody s target (format_and_retry os source target fstype options s)
  format_and_retry_adds source target fstype options s h k =
      let fs : String = if fstype == "" then "ext4" else fstype in
      let (made, t) = os.exec_run ("mkfs." <> fs) (mkfs_args source fs) s in
      let same = spares ("mkfs." <> fs) (mkfs_args source fs) s (mkfs fs) in
      elim (Option-cases made.1) [
        | inl e ↦ rw e (from s t same (do_mount_adds source target fs options t h k))
        | inr (failure, e) ↦ rw (e, same) (not_added failure)
      ]

  recover_mount_adds :
      (source target fstype : String) (options : List String) (failure : Err) (s : os.State)
      → plain options ≡ true
      → known target ≡ true
      → AddsBody s target (recover_mount os source target fstype options failure s)
  recover_mount_adds source target fstype options failure s h k =
      let (found, t) = get_disk_format os source s in
      let same = get_disk_format_keeps source s in
      elim (Answer-cases found) [
        | inr (error, e) ↦ rw (e, same) (not_added error)
        | inl (existing, e) ↦ elim (Bool-cases (existing == "")) [
          | inl n ↦
              rw (e, n) (from s t same (format_and_retry_adds source target fstype options t h k))
          | inr n ↦ rw (e, n, same) (not_added _)
        ]
      ]

  pub format_and_mount_adds :
      (source target fstype : String) (options : List String) (s : os.State)
      → plain options ≡ true
      → known target ≡ true
      → AddsFrom s target (format_and_mount os source target fstype options s)
  unfolding format_and_mount
  format_and_mount_adds source target fstype options s h k =
      let (checked, t) = os.exec_run "fsck" ("-a" ∷ source ∷ []) s in
      let same = spares "fsck" ("-a" ∷ source ∷ []) s fsck in
      let with_defaults = options ++ "defaults" ∷ [] in
      let h' = mounts.defaults_is_plain options h in
      let (tried, u) = do_mount os source target fstype with_defaults t in
      let tried_adds = do_mount_adds source target fstype with_defaults t h' k in
      elim (Option-cases (fsck_error source checked.0 checked.1)) [
        | inr (failure, e) ↦ rw (e, same) (not_added failure)
        | inl e ↦ elim (Option-cases tried) [
          | inl m ↦
              rw (e, m)
                (from s t same
                  (subst (λ o. Adds (place target) (stacks t) o (stacks u)) m tried_adds))
          | inr (failure, m) ↦
              rw (e, m)
                (from s u (Adds-some tried_adds m ∙ same)
                  (recover_mount_adds source target fstype with_defaults failure u h' k))
        ]
      ]
