-- ===== src/Mount/Mounted.antt =====
-- When `FormatAndMount` of pkg/mount-manager/mounter.go has mounted the disk.
use compute_persistent_disk.Prelude.{
  String, ◌<>◌, ◌≡◌, ◌⊎◌, inl, inr, refl, sym, subst, Option, none, [], ◌∷◌, ◌++◌, List, arith,
  ◌==◌, eq_iff, if◌then◌else◌, Option-cases, Bool-cases,
}
use compute_persistent_disk.Go.Error.{Err, Answer-cases}
use compute_persistent_disk.Go.Handler.{Flow, next, returned}
use compute_persistent_disk.Mount.Gce.{
  Os, do_mount, get_disk_format, format_and_retry, recover_mount, format_and_mount,
}
use compute_persistent_disk.Mount.Commands.{make_mount_args, fsck_error, mkfs_args}

-- The file system is the one asked for, or ext4 where none is.
abbrev pub IsFileSystem : String → String → Type 0
IsFileSystem fstype fs = (fs ≡ fstype) ⊎ ((fstype ≡ "") × (fs ≡ "ext4"))

module _ (os : Os) (source target : String) (options : List String) where
  -- The last command was a mount of the source on the target, and it succeeded.
  abbrev pub MountedAs : String → os.State → Type 0
  MountedAs fs after =
      (before : os.State) × ((os.exec_run "mount" (make_mount_args source target fs options)
          before).0.1
        ≡ none)
      × ((os.exec_run "mount" (make_mount_args source target fs options) before).1 ≡ after)

  pub do_mount-MountedAs :
      (fs : String) (s : os.State)
      → (do_mount os source target fs options s).0 ≡ none
      → MountedAs fs (do_mount os source target fs options s).1
  unfolding do_mount
  do_mount-MountedAs fs s h = (s, ground arith, ground arith)

  abbrev pub IsMounted : String → os.State → Type 0
  IsMounted fstype after = (fs : String) × IsFileSystem fstype fs × MountedAs fs after

  abbrev Mounts : String → Flow (Option Err) (Option Err) × os.State → Type 0
  Mounts fstype (r, after) = returned r ≡ none → IsMounted fstype after

  -- The body of a call whose result is returned.
  abbrev ending : Option Err × os.State → Flow (Option Err) (Option Err) × os.State
  ending (r, after) = (next r, after)

  format_and_retry-Mounts :
      (fstype : String) (s : os.State)
      → Mounts fstype (format_and_retry os source target fstype options s)
  format_and_retry-Mounts fstype s h =
      let fs : String = if fstype == "" then "ext4" else fstype in
      let (made, t) = os.exec_run ("mkfs." <> fs) (mkfs_args source fs) s in
      elim (Option-cases made.1) [
        | inl e ↦
            let mounted = do_mount os source target fs options t in
            (
              fs,
              ground (arith, eq_iff fstype ""),
              subst
                  (λ (p : Flow (Option Err) (Option Err) × os.State).
                    returned p.0 ≡ none → MountedAs fs p.1)
                  {x = ending mounted} {y = format_and_retry os source target fstype options s}
                  (sym (rw e)) (do_mount-MountedAs fs t) h,
            )
        | inr (failure, e) ↦ absurd (ground arith)
      ]

  recover_mount-Mounts :
      (fstype : String) (failure : Err) (s : os.State)
      → Mounts fstype (recover_mount os source target fstype options failure s)
  recover_mount-Mounts fstype failure s h =
      let (found, t) = get_disk_format os source s in
      elim (Answer-cases found) [
        | inl (existing, e) ↦ elim (Bool-cases (existing == "")) [
          | inl n ↦
              subst (Mounts fstype) {x = format_and_retry os source target fstype options t}
                {y = recover_mount os source target fstype options failure s} (sym (rw (e, n)))
                (format_and_retry-Mounts fstype t) h
          | inr n ↦ absurd (ground arith)
        ]
        | inr (_, e) ↦ absurd (ground arith)
      ]

-- Where `FormatAndMount` returns no error, its last command was a mount of the source on the target
-- with the options and `defaults`, as the file system asked for or as ext4 where none is, and it
-- succeeded.
pub format_and_mount-IsMounted :
    (os : Os) (source target fstype : String) (options : List String) (s : os.State)
    → (format_and_mount os source target fstype options s).0 ≡ none
    → IsMounted os source target
        (options ++ "defaults" ∷ [])
        fstype
        (format_and_mount os source target fstype options s).1
unfolding format_and_mount
format_and_mount-IsMounted os source target fstype options s h =
    let (checked, t) = os.exec_run "fsck" ("-a" ∷ source ∷ []) s in
    let with_defaults = options ++ "defaults" ∷ [] in
    let (tried, u) = do_mount os source target fstype with_defaults t in
    elim (Option-cases (fsck_error source checked.0 checked.1)) [
      | inr (failure, e) ↦ absurd (ground arith)
      | inl e ↦ elim (Option-cases tried) [
        | inl m ↦
            rw (e, m)
              (fstype, inl refl, do_mount-MountedAs os source target with_defaults fstype t m)
        | inr (failure, m) ↦
            let recovered = recover_mount os source target fstype with_defaults failure u in
            subst
              (λ (p : Option Err × os.State).
                p.0 ≡ none → IsMounted os source target with_defaults fstype p.1)
              {x = (returned recovered.0, recovered.1)}
              {y = format_and_mount os source target fstype options s} (sym (rw (e, m)))
              (recover_mount-Mounts os source target with_defaults fstype failure u) h
      ]
    ]
