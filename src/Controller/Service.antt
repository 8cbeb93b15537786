-- ===== src/Controller/Service.antt =====
-- What the controller service promises, without the maps, the lists of attached disks and the calls
-- that implement it: volumes by name, and the mode in which a node has a volume.
pub mod View
pub mod Publishing
pub mod Refines
use compute_persistent_disk.Prelude.{
  String, Bool, true, false, not, ◌&&◌, ◌||◌, Option, none, some, List, [], ◌∷◌, is_nil, is_empty,
  ◌==◌, if◌then◌else◌,
}
use compute_persistent_disk.Prelude.Int.{ℤ, pos, leb_ℤ, eqb_ℤ}
use compute_persistent_disk.Go.Error.{
  Code, invalid_argument, already_exists, Err, status, Result, ok, err, panic, Reply, reply,
  panicked,
}
use compute_persistent_disk.Csi.{
  CapacityRange, CreateVolumeRequest, DeleteVolumeRequest, ControllerPublishVolumeRequest,
  ControllerUnpublishVolumeRequest,
}
use compute_persistent_disk.Utils.{split_zone_name_id, gb_to_bytes}
use compute_persistent_disk.Controller.Create.{
  apply_parameters, disk_size_gb, get_request_capacity, get_required_bytes, get_limit_bytes,
}
use compute_persistent_disk.Controller.Publish.{read_write_mode}
use compute_persistent_disk.Controller.Session.{Rpc, create, delete, publish, unpublish}

-- `kind` is the last component of the type that the cloud gives for the disk.
pub record Volume : Type 0 where
  pub size_gb : ℤ
  pub kind : String

-- The default zone, the volumes, the nodes, and for a node and a volume the mode, if it is published.
pub record Volumes : Type 0 where
  pub zone : String
  pub volume : String → Option Volume
  pub node : String → Bool
  pub mode : String → String → Option String

-- What a client learns from a reply besides the response.
pub data Verdict : Type 0 where
  accepted : Verdict
  rejected : Option Code → Verdict
  crashed : Verdict

abbrev pub code_of_error : Err → Option Code
code_of_error (status c message args) = some c
code_of_error _ = none

abbrev pub verdict_of : {A : Type 0} → Reply A → Verdict
verdict_of (reply r none) = accepted
verdict_of (reply r (some e)) = rejected (code_of_error e)
verdict_of panicked = crashed

-- A function, changed at one name.
abbrev pub update {ℓ} : {A : Type ℓ} → (String → A) → String → A → String → A
update f k a x = if k == x then a else f x

abbrev pub set_mode : Volumes → String → String → Option String → Volumes
set_mode v node name m = record v { mode = update v.mode node (update (v.mode node) name m) }

-- Goes on with the value of a result, or is rejected with its error.
abbrev pub given : {A : Type 0} → Result A → (A → Verdict × Volumes) → Volumes → Verdict × Volumes
given (ok a) f v = f a
given (err e) f v = (rejected (code_of_error e), v)
given panic f v = (crashed, v)

-- Whether a volume serves a request: a size of 0 is no bound, and the kind must be another one than
-- the one asked for, or the default where none is.
abbrev pub serves : Volume → String → Option CapacityRange → Bool
serves volume disk_type range =
    let size = gb_to_bytes volume.size_gb in
    let required = get_required_bytes range in
    let limit = get_limit_bytes range in
    (eqb_ℤ required (pos 0) || leb_ℤ required size)
    && (eqb_ℤ limit (pos 0) || leb_ℤ size limit)
    && (not (volume.kind == disk_type) || disk_type == "" && volume.kind == "pd-standard")

-- A new volume of the fake cloud has no type.
abbrev pub made_for : CreateVolumeRequest → Volume
made_for req = record {
  size_gb = disk_size_gb (get_request_capacity req.capacity_range);
  kind = "";
}

abbrev pub create_as : String → Volume → Volumes → Verdict × Volumes
create_as name volume v = (accepted, record v { volume = update v.volume name (some volume) })

abbrev pub create_at : CreateVolumeRequest → String → Option Volume → Volumes → Verdict × Volumes
create_at req disk_type none v = create_as req.name (made_for req) v
create_at req disk_type (some volume) v =
    if serves volume disk_type req.capacity_range
    then (accepted, v)
    else (rejected (some already_exists), v)

abbrev pub publish_as : String → String → String → Option String → Volumes → Verdict × Volumes
publish_as node name m none v = (accepted, set_mode v node name (some m))
publish_as node name m (some m') v =
    if m' == m then (accepted, v) else (rejected (some already_exists), v)

-- A request that names a volume or a node that is not there is rejected without a code.
abbrev pub at_node : Volumes → String → String → Verdict × Volumes → Verdict × Volumes
at_node v node name r =
    if is_nil (v.volume name) || not (v.node node) then (rejected none, v) else r

abbrev pub publish_at : String → String → String → Volumes → Verdict × Volumes
publish_at node name m v = at_node v node name (publish_as node name m (v.mode node name) v)

abbrev pub unpublish_at : String → String → Volumes → Verdict × Volumes
unpublish_at node name v = at_node v node name (accepted, set_mode v node name none)

abbrev invalid : Volumes → Verdict × Volumes
invalid v = (rejected (some invalid_argument), v)

-- An ID that does not split is that of no volume.
abbrev pub delete_at : Result (String × String) → Volumes → Verdict × Volumes
delete_at (ok (zone, name)) v = (accepted, record v { volume = update v.volume name none })
delete_at (err e) v = (accepted, v)
delete_at panic v = (crashed, v)

-- What an RPC answers, and what it makes of the volumes.
abbrev pub promise : Rpc → Volumes → Verdict × Volumes
promise (create req) v =
    if req.name == "" || is_empty req.volume_capabilities
    then invalid v
    else given (apply_parameters req.parameters "pd-standard" v.zone)
        (λ (disk_type, zone). create_at req disk_type (v.volume req.name) v) v
promise (delete req) v =
    if req.volume_id == "" then invalid v else delete_at (split_zone_name_id req.volume_id) v
promise (publish req) v =
    if req.volume_id == "" || req.node_id == "" || is_nil req.volume_capability
    then invalid v
    else given (split_zone_name_id req.volume_id)
        (λ (zone, name). publish_at req.node_id name (read_write_mode req.readonly) v) v
promise (unpublish req) v =
    if req.volume_id == "" || req.node_id == ""
    then invalid v
    else given (split_zone_name_id req.volume_id) (λ (zone, name). unpublish_at req.node_id name v)
        v
