-- ===== src/Node/Mounted.antt =====
-- What an answer of `NodePublishVolume` without an error says of the machine.
use compute_persistent_disk.Prelude.{Option, ◌≡◌, none, [], ◌∷◌, arith, if◌then◌else◌}
use compute_persistent_disk.Go.Error.{Err, respond}
use compute_persistent_disk.Csi.{NodePublishVolumeRequest, response}
use compute_persistent_disk.Mount.{Mounter}
use compute_persistent_disk.Node.{node_publish_volume}

-- The attempt to mount a volume on its target, after the check of the target and its creation.
abbrev pub bind_mount :
    (mounter : Mounter) → NodePublishVolumeRequest → mounter.State → Option Err × mounter.State
bind_mount mounter req s =
    let s' = (mounter.is_likely_not_mount_point req.target_path s).1 in
    let s'' = (mounter.mkdir_all req.target_path 0o750 s').1 in
    mounter.do_mount req.staging_target_path req.target_path "ext4"
      (if req.readonly then "bind" ∷ "ro" ∷ [] else "bind" ∷ []) s''

-- Where `NodePublishVolume` answers a response and no error, the bind mount of the staging path
-- on the target, in the mode that is asked for, has succeeded and was the last thing that it did.
pub node_publish_volume-mounts :
    (mounter : Mounter) (req : NodePublishVolumeRequest) (s : mounter.State)
    → (node_publish_volume mounter req s).0 ≡ respond response
    → ((bind_mount mounter req s).0 ≡ none)
      × ((node_publish_volume mounter req s).1 ≡ (bind_mount mounter req s).1)
unfolding node_publish_volume
node_publish_volume-mounts mounter req s h = ground arith
