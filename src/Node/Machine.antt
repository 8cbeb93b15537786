-- ===== src/Node/Machine.antt =====
-- The node service over `GCEMounter`.
use compute_persistent_disk.Prelude.{
  String, ◌<>◌, ◌≡◌, ◌⊎◌, inl, inr, subst, some, List, [], ◌∷◌, ◌++◌,
}
use compute_persistent_disk.Go.Strings.Laws.{Lacks}
use compute_persistent_disk.Go.Error.{ok, respond}
use compute_persistent_disk.Csi.{NodeStageVolumeRequest, response}
use compute_persistent_disk.Utils.{split_zone_name_id}
use compute_persistent_disk.Utils.VolumeId.{split_zone_name_id_iff}
use compute_persistent_disk.Mount.Commands.{get_disk_by_id_paths}
use compute_persistent_disk.Mount.Device.{
  Among, get_disk_by_id_paths-google, verify_device_path-answer,
}
use compute_persistent_disk.Mount.Gce.{Os, gce_mounter}
use compute_persistent_disk.Mount.Mounted
use compute_persistent_disk.Mount.Mounted.{format_and_mount-IsMounted}
use compute_persistent_disk.Node.{node_stage_volume, mount_options, access_type_of}
use compute_persistent_disk.Node.Staged.{node_stage_volume-mounts}

-- One of the two paths by which udev names the device of a persistent disk.
abbrev pub IsDeviceOf : String → String → Type 0
IsDeviceOf name path =
    (path ≡ "/host/dev/disk/by-id/" <> ("google-" <> name))
    ⊎ (path ≡ "/host/dev/disk/by-id/" <> ("scsi-0Google_PersistentDisk_" <> name))

device_of :
    (name path : String)
    → Lacks b'/' name
    → Among path (get_disk_by_id_paths name "")
    → IsDeviceOf name path
device_of name path h among = elim (subst (Among path) (get_disk_by_id_paths-google name h) among) [
  | inl e ↦ inl e
  | inr (inl e) ↦ inr e
  | inr (inr e) ↦ absurd e
]

-- Where `NodeStageVolume` over `GCEMounter` answers a response and no error, the last command of
-- the machine was a mount of one of the two by-id paths of the volume that the ID names on the
-- staging path, it succeeded, and it had the options of the capability with `defaults`, and its
-- file system, or ext4 where that is empty.
pub stage-IsMounted :
    (os : Os) (req : NodeStageVolumeRequest) (s : os.State)
    → (node_stage_volume (gce_mounter os) req s).0 ≡ respond response
    → (zone volume_name device_path fstype : String) × (options : List String) × (split_zone_name_id
          req.volume_id
        ≡ ok (zone, volume_name))
      × IsDeviceOf volume_name device_path
      × (mount_options (access_type_of req.volume_capability) ≡ some (fstype, options))
      × Mounted.IsMounted os device_path req.staging_target_path
          (options ++ "defaults" ∷ [])
          fstype
          (node_stage_volume (gce_mounter os) req s).1
stage-IsMounted os req s h =
    let (zone, name, device_path, split, verified, n, mounted) =
      node_stage_volume-mounts (gce_mounter os) req s h in
    let (fstype, options, before, chosen, done, last) = mounted in
    let (_, _, lacks) = (split_zone_name_id_iff req.volume_id zone name).0 split in
    let (among, _) =
      verify_device_path-answer os (get_disk_by_id_paths name "") s device_path verified n in
    (
      zone,
      name,
      device_path,
      fstype,
      options,
      split,
      device_of name device_path lacks among,
      chosen,
      subst
          (Mounted.IsMounted os device_path req.staging_target_path (options ++ "defaults" ∷ [])
            fstype)
          last
          (format_and_mount-IsMounted os device_path req.staging_target_path fstype options before
            done),
    )
