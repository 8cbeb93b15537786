-- ===== src/Driver.antt =====
-- pkg/gce-csi-driver/gce-driver.go and identity.go: the driver's state, its setup, and the RPCs that
-- only read that state.
pub mod Server
pub mod Setup
pub mod Endpoint
pub mod Grpc
pub mod Serving
use compute_persistent_disk.Prelude.{
  String, Bool, true, false, Option, none, some, List, [], ◌∷◌, ◌==◌, if◌then◌else◌,
}
use compute_persistent_disk.Prelude.Int.{ℤ, pos, eqb_ℤ}
use compute_persistent_disk.Go.Error.{
  Err, errorf, end, invalid_argument, unavailable, Reply, respond, fail, status_error,
}
use compute_persistent_disk.Csi.{
  RpcType, AccessMode, ControllerServiceCapability, NodeServiceCapability, Mode, single_node_writer,
  multi_node_reader_only, Response, response,
}

abbrev pub unknown_rpc : RpcType
unknown_rpc = pos 0

abbrev pub create_delete_volume : RpcType
create_delete_volume = pos 1

abbrev pub publish_unpublish_volume : RpcType
publish_unpublish_volume = pos 2

abbrev pub stage_unstage_volume : RpcType
stage_unstage_volume = pos 1

unfoldable pub new_volume_capability_access_mode : Mode → AccessMode
new_volume_capability_access_mode mode = record { mode = mode }

unfoldable pub new_controller_service_capability : RpcType → ControllerServiceCapability
new_controller_service_capability cap = record { rpc = record { type = cap } }

unfoldable pub new_node_service_capability : RpcType → NodeServiceCapability
new_node_service_capability cap = record { rpc = record { type = cap } }

-- The servers hold the driver too; each is a part of the driver that it holds, so that a model has
-- the rest of it: for the identity server nothing.
pub data IdentityServer : Type 0 where
  identity_server : IdentityServer

pub record NodeServer (Mo : Type 0) : Type 0 where
  pub mounter : Mo

pub record ControllerServer (Cl : Type 0) : Type 0 where
  pub cloud_provider : Cl

-- The driver, for a type of cloud providers and a type of mounters.
pub record GceDriver (Cl Mo : Type 0) : Type 0 where
  pub name : String
  pub node_id : String
  pub ids : Option IdentityServer
  pub ns : Option (NodeServer Mo)
  pub cs : Option (ControllerServer Cl)
  pub vcap : List AccessMode
  pub cscap : List ControllerServiceCapability
  pub nscap : List NodeServiceCapability

-- The loops that build the capabilities of a driver.
abbrev access_modes : List Mode → List AccessMode
access_modes [] = []
access_modes (c ∷ cs) = new_volume_capability_access_mode c ∷ access_modes cs

abbrev controller_capabilities : List RpcType → List ControllerServiceCapability
controller_capabilities [] = []
controller_capabilities (c ∷ cs) = new_controller_service_capability c ∷ controller_capabilities cs

abbrev node_capabilities : List RpcType → List NodeServiceCapability
node_capabilities [] = []
node_capabilities (n ∷ ns) = new_node_service_capability n ∷ node_capabilities ns

abbrev has_capability : List ControllerServiceCapability → RpcType → Bool
has_capability [] c = false
has_capability (x ∷ xs) c = if eqb_ℤ c x.rpc.type then true else has_capability xs c

module _ {Cl Mo : Type 0} where
  -- `&GCEDriver{}`
  unfoldable pub get_gce_driver : GceDriver Cl Mo
  get_gce_driver = record {
    name = "";
    node_id = "";
    ids = none;
    ns = none;
    cs = none;
    vcap = [];
    cscap = [];
    nscap = [];
  }

  unfoldable pub add_volume_capability_access_modes : List Mode → GceDriver Cl Mo → GceDriver Cl Mo
  unfolding new_volume_capability_access_mode
  add_volume_capability_access_modes vc d = record d { vcap = access_modes vc }

  unfoldable pub add_controller_service_capabilities :
      List RpcType → GceDriver Cl Mo → GceDriver Cl Mo
  unfolding new_controller_service_capability
  add_controller_service_capabilities cl d = record d { cscap = controller_capabilities cl }

  unfoldable pub add_node_service_capabilities : List RpcType → GceDriver Cl Mo → GceDriver Cl Mo
  unfolding new_node_service_capability
  add_node_service_capabilities nl d = record d { nscap = node_capabilities nl }

  -- Of the driver that they are given the servers have no more than their types say.
  unfoldable pub new_identity_server : GceDriver Cl Mo → IdentityServer
  new_identity_server d = identity_server

  unfoldable pub new_node_server : GceDriver Cl Mo → Mo → NodeServer Mo
  new_node_server d mounter = record { mounter = mounter }

  unfoldable pub new_controller_server : GceDriver Cl Mo → Cl → ControllerServer Cl
  new_controller_server d cloud_provider = record { cloud_provider = cloud_provider }

  unfoldable pub setup_gce_driver :
      Cl → Mo → String → String → GceDriver Cl Mo → Option Err × GceDriver Cl Mo
  unfolding add_volume_capability_access_modes add_controller_service_capabilities
      add_node_service_capabilities new_identity_server new_node_server new_controller_server
  setup_gce_driver cloud_provider mounter name node_id d =
      if name == ""
      then (some (errorf "Driver name missing" end), d)
      else if node_id == ""
      then (some (errorf "NodeID missing" end), d)
      else let named = record d { name = name; node_id = node_id } in
        let moded =
          add_volume_capability_access_modes (single_node_writer ∷ multi_node_reader_only ∷ [])
            named in
        let controlled =
          add_controller_service_capabilities (create_delete_volume ∷ publish_unpublish_volume ∷ [])
            moded in
        let noded = add_node_service_capabilities (stage_unstage_volume ∷ []) controlled in
        (
          none,
          record noded {
            ids = some (new_identity_server noded);
            ns = some (new_node_server noded mounter);
            cs = some (new_controller_server noded cloud_provider);
          },
        )

  unfoldable pub validate_controller_service_request : GceDriver Cl Mo → RpcType → Option Err
  validate_controller_service_request d c =
      if eqb_ℤ c unknown_rpc
      then none
      else if has_capability d.cscap c
      then none
      else some (status_error invalid_argument "Invalid controller service request")

  -- `GetPluginInfo`: the response is the name.
  unfoldable pub get_plugin_info : GceDriver Cl Mo → Reply String
  get_plugin_info d =
      if d.name == ""
      then fail (status_error unavailable "Driver name not configured")
      else respond d.name

  unfoldable pub controller_get_capabilities :
      GceDriver Cl Mo → Reply (List ControllerServiceCapability)
  controller_get_capabilities d = respond d.cscap

  unfoldable pub node_get_id : GceDriver Cl Mo → Reply String
  node_get_id d = respond d.node_id

  unfoldable pub node_get_capabilities : GceDriver Cl Mo → Reply (List NodeServiceCapability)
  node_get_capabilities d = respond d.nscap

-- `GetPluginCapabilities`: the one service type, `CONTROLLER_SERVICE`.
unfoldable pub get_plugin_capabilities : Reply (List ℤ)
get_plugin_capabilities = respond (pos 1 ∷ [])

unfoldable pub probe : Reply Response
probe = respond response
