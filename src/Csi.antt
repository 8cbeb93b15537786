-- ===== src/Csi.antt =====
-- The messages of the container storage interface that the driver reads and makes. Their types are
-- generated from the specification; a model has the fields that the driver uses.
use compute_persistent_disk.Prelude.{String, Bool, Option, List}
use compute_persistent_disk.Prelude.Int.{ℤ, pos}

pub record CapacityRange : Type 0 where
  pub required_bytes : ℤ
  pub limit_bytes : ℤ

-- A value of the enumeration `VolumeCapability_AccessMode_Mode`, an `int32` on the wire.
abbrev pub Mode : Type 0
Mode = ℤ

abbrev pub single_node_writer : Mode
single_node_writer = pos 1

abbrev pub multi_node_reader_only : Mode
multi_node_reader_only = pos 3

pub record AccessMode : Type 0 where
  pub mode : Mode

-- The types of the controller's and of the node's capabilities, `int32` on the wire.
abbrev pub RpcType : Type 0
RpcType = ℤ

-- A capability has one kind of type, `Rpc`.
pub record CapabilityRpc : Type 0 where
  pub type : RpcType

pub record ControllerServiceCapability : Type 0 where
  pub rpc : CapabilityRpc

pub record NodeServiceCapability : Type 0 where
  pub rpc : CapabilityRpc

pub data AccessType : Type 0 where
  -- `fs_type` and `mount_flags`
  mount : String → List String → AccessType
  block : AccessType

pub record VolumeCapability : Type 0 where
  pub access_type : Option AccessType
  pub access_mode : Option AccessMode

pub record CreateVolumeRequest : Type 0 where
  pub name : String
  pub capacity_range : Option CapacityRange
  pub volume_capabilities : List VolumeCapability
  -- a Go map, in the order in which the loop over it meets the entries
  pub parameters : List (String × String)

pub record CreateVolumeResponse : Type 0 where
  pub capacity_bytes : ℤ
  pub id : String

pub record DeleteVolumeRequest : Type 0 where
  pub volume_id : String

pub record ControllerPublishVolumeRequest : Type 0 where
  pub volume_id : String
  pub node_id : String
  pub readonly : Bool
  pub volume_capability : Option VolumeCapability

pub record ControllerUnpublishVolumeRequest : Type 0 where
  pub volume_id : String
  pub node_id : String

pub record ValidateVolumeCapabilitiesRequest : Type 0 where
  pub volume_id : String
  pub volume_capabilities : List VolumeCapability

pub record ValidateVolumeCapabilitiesResponse : Type 0 where
  pub supported : Bool
  -- the mode that the message names, if there is a message
  pub message : Option Mode

pub record NodePublishVolumeRequest : Type 0 where
  pub volume_id : String
  pub staging_target_path : String
  pub target_path : String
  pub readonly : Bool
  pub volume_capability : Option VolumeCapability

pub record NodeUnpublishVolumeRequest : Type 0 where
  pub volume_id : String
  pub target_path : String

pub record NodeStageVolumeRequest : Type 0 where
  pub volume_id : String
  pub staging_target_path : String
  pub volume_capability : Option VolumeCapability

pub record NodeUnstageVolumeRequest : Type 0 where
  pub volume_id : String
  pub staging_target_path : String

-- A response with no field, or with fields that the driver leaves nil.
pub data Response : Type 0 where
  response : Response
