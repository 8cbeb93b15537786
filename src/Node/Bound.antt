-- ===== src/Node/Bound.antt =====
-- `NodePublishVolume` over `GCEMounter`: the command that binds the staging path to the target.
use compute_persistent_disk.Prelude.{
  String, ◌≡◌, refl, sym, subst, none, List, [], ◌∷◌, arith, ◌==◌, if◌then◌else◌, Bool-cases, inl,
  inr, false, Bool,
}
use compute_persistent_disk.Go.Strings.{join}
use compute_persistent_disk.Go.Error.{respond}
use compute_persistent_disk.Csi.{NodePublishVolumeRequest, response}
use compute_persistent_disk.Mount.Commands.{make_mount_args}
use compute_persistent_disk.Mount.Gce.{Os, gce_mounter}
use compute_persistent_disk.Mount.Mounted.{do_mount-MountedAs}
use compute_persistent_disk.Node.{node_publish_volume}
use compute_persistent_disk.Node.Mounted.{node_publish_volume-mounts}

-- The arguments of the command: no file system is made, and `ro` is what the request asks for.
abbrev pub bind_args : NodePublishVolumeRequest → List String
bind_args req =
    "-t"
    ∷ "ext4"
    ∷ "-o"
    ∷ (if req.readonly then "bind,ro" else "bind")
    ∷ req.staging_target_path
    ∷ req.target_path
    ∷ []

-- The last command was a mount with the arguments, and it succeeded.
abbrev pub Ran : (os : Os) → List String → os.State → Type 0
Ran os args after =
    (before : os.State) × ((os.exec_run "mount" args before).0.1 ≡ none)
    × ((os.exec_run "mount" args before).1 ≡ after)

abbrev options_of : Bool → List String
options_of readonly = if readonly then "bind" ∷ "ro" ∷ [] else "bind" ∷ []

make_mount_args-bind :
    (req : NodePublishVolumeRequest)
    → (req.staging_target_path == "") ≡ false
    → make_mount_args req.staging_target_path req.target_path "ext4" (options_of req.readonly)
      ≡ bind_args req
unfolding make_mount_args join
make_mount_args-bind req n = elim (Bool-cases req.readonly) [
  | inl r ↦ rw (n, r) refl
  | inr r ↦ rw (n, r) refl
]

has_staging :
    (os : Os) (req : NodePublishVolumeRequest) (s : os.State)
    → (node_publish_volume (gce_mounter os) req s).0 ≡ respond response
    → (req.staging_target_path == "") ≡ false
unfolding node_publish_volume
has_staging os req s h = elim (Bool-cases (req.staging_target_path == "")) [
  | inl e ↦ absurd (ground arith)
  | inr e ↦ e
]

-- Where `NodePublishVolume` over `GCEMounter` answers a response and no error, the last command
-- of the machine was `mount -t ext4 -o bind` of the staging path on the target, with `bind,ro` in
-- place of `bind` for a request that is read-only, and it succeeded.
pub publish-Ran :
    (os : Os) (req : NodePublishVolumeRequest) (s : os.State)
    → (node_publish_volume (gce_mounter os) req s).0 ≡ respond response
    → Ran os (bind_args req) (node_publish_volume (gce_mounter os) req s).1
publish-Ran os req s h =
    let (done, last) = node_publish_volume-mounts (gce_mounter os) req s h in
    let t =
      ((gce_mounter os).mkdir_all req.target_path 0o750
        ((gce_mounter os).is_likely_not_mount_point req.target_path s).1).1 in
    subst (λ args. Ran os args (node_publish_volume (gce_mounter os) req s).1)
      (make_mount_args-bind req (has_staging os req s h))
      (subst
        (Ran os (
          make_mount_args req.staging_target_path req.target_path "ext4" (options_of req.readonly)))
        (sym last)
        (do_mount-MountedAs os req.staging_target_path req.target_path (options_of req.readonly)
          "ext4" t done))
