-- ===== src/Node/Service.antt =====
-- What the node service promises, without the checks, the directories and the commands that implement
-- it: the mounts on each place of the machine, after each RPC.
pub mod Steps
pub mod Publish
pub mod Unmounts
pub mod Stage
pub mod Refines
pub mod Flat
use compute_persistent_disk.Prelude.{
  String, Bool, true, false, not, ◌&&◌, ◌≡◌, Option, none, some, List, ◌∷◌, ◌==◌, is_nil,
}
use compute_persistent_disk.Go.Error.{Result, ok, Reply, reply, panicked}
use compute_persistent_disk.Go.Handler.{Action}
use compute_persistent_disk.Csi.{
  NodePublishVolumeRequest, NodeUnpublishVolumeRequest, NodeStageVolumeRequest,
  NodeUnstageVolumeRequest, Response,
}
use compute_persistent_disk.Utils.{split_zone_name_id}
use compute_persistent_disk.Mount.{Mounter}
use compute_persistent_disk.Mount.Table.{Table, set_stack, is_seen}
use compute_persistent_disk.Node.{
  node_publish_volume, node_unpublish_volume, node_stage_volume, node_unstage_volume, mount_options,
  access_type_of,
}

-- The RPCs of the node service that change the machine.
pub data NodeRpc : Type 0 where
  stage : NodeStageVolumeRequest → NodeRpc
  publish : NodePublishVolumeRequest → NodeRpc
  unpublish : NodeUnpublishVolumeRequest → NodeRpc
  unstage : NodeUnstageVolumeRequest → NodeRpc

abbrev pub serve : (mounter : Mounter) → NodeRpc → Action mounter.State (Reply Response)
serve mounter (stage req) = node_stage_volume mounter req
serve mounter (publish req) = node_publish_volume mounter req
serve mounter (unpublish req) = node_unpublish_volume mounter req
serve mounter (unstage req) = node_unstage_volume mounter req

-- What a client learns from a reply: `already` is no error and no response.
pub data NodeVerdict : Type 0 where
  accepted already failed crashed : NodeVerdict

abbrev pub node_verdict_of : Reply Response → NodeVerdict
node_verdict_of (reply (some r) none) = accepted
node_verdict_of (reply none none) = already
node_verdict_of (reply r (some e)) = failed
node_verdict_of panicked = crashed

-- The path that an RPC is about, and whether it is to be mounted or unmounted.
abbrev pub path_of : NodeRpc → String
path_of (stage req) = req.staging_target_path
path_of (publish req) = req.target_path
path_of (unpublish req) = req.target_path
path_of (unstage req) = req.staging_target_path

abbrev pub is_mounting : NodeRpc → Bool
is_mounting (stage req) = true
is_mounting (publish req) = true
is_mounting (unpublish req) = false
is_mounting (unstage req) = false

abbrev pub succeeds : {A : Type 0} → Result A → Bool
succeeds (ok a) = true
succeeds _ = false

-- Whether a request has its mandatory fields, and names a volume where that is asked for.
abbrev pub is_complete : NodeRpc → Bool
is_complete (stage req) =
    not (req.volume_id == "")
    && not (req.staging_target_path == "")
    && not (is_nil req.volume_capability)
    && succeeds (split_zone_name_id req.volume_id)
    && not (is_nil (mount_options (access_type_of req.volume_capability)))
is_complete (publish req) =
    not (req.volume_id == "")
    && not (req.staging_target_path == "")
    && not (req.target_path == "")
    && not (is_nil req.volume_capability)
is_complete (unpublish req) = not (req.volume_id == "") && not (req.target_path == "")
is_complete (unstage req) = not (req.volume_id == "") && not (req.staging_target_path == "")

-- Whether the mount options of a request, if it has any, are among those that are told.
abbrev options_are : (List String → Bool) → Option (String × List String) → Bool
options_are plain none = true
options_are plain (some (fs_type, options)) = plain options

abbrev pub is_plain : (List String → Bool) → NodeRpc → Bool
is_plain plain (stage req) =
    options_are plain (mount_options (access_type_of req.volume_capability))
is_plain plain _ = true

-- Whether a request is about a path that is among those that are told, and its mount options are.
abbrev pub is_asked : (String → Bool) → (List String → Bool) → NodeRpc → Bool
is_asked known plain r = known (path_of r) && is_plain plain r

-- What an RPC may answer for a table of mounts, and the table that it leaves. `place` tells what a path
-- leads to.
pub data Served (place : String → String) (t : Table) : NodeRpc → NodeVerdict → Table → Type 0 where
  -- The request was complete, no mount was seen on the path, and now there is one more.
  mounted :
      (r : NodeRpc) (seen : Bool)
      → is_complete r ≡ true
      → is_mounting r ≡ true
      → is_seen (t (place (path_of r))) ≡ false
      → Served place t r accepted (set_stack (place (path_of r)) (seen ∷ t (place (path_of r))) t)
  -- There was a mount on the path, and the last one was taken off.
  unmounted :
      (r : NodeRpc) (seen : Bool) (below : List Bool)
      → is_complete r ≡ true
      → is_mounting r ≡ false
      → t (place (path_of r)) ≡ seen ∷ below
      → Served place t r accepted (set_stack (place (path_of r)) below t)
  -- A publication on a mount that is seen changes nothing.
  was_mounted :
      (req : NodePublishVolumeRequest)
      → is_complete (publish req) ≡ true
      → is_seen (t (place req.target_path)) ≡ true
      → Served place t (publish req) already t
  -- What fails changes nothing.
  refused : (r : NodeRpc) → Served place t r failed t
