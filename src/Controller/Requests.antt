-- ===== src/Controller/Requests.antt =====
-- Requests to the controller that lack a mandatory field.
use compute_persistent_disk.Go.Handler.{Action}
use compute_persistent_disk.Prelude.{Option, ◌≡◌, ◌⊎◌, none, some, []}
use compute_persistent_disk.Go.Error.{Code, Reply, code_of, invalid_argument}
use compute_persistent_disk.Cloud.{GceCompute}
use compute_persistent_disk.Controller.Create.{create_volume}
use compute_persistent_disk.Controller.Delete.{delete_volume}
use compute_persistent_disk.Controller.Session.{Rpc, create, delete, publish, unpublish}
use compute_persistent_disk.Controller.Publish.{
  controller_publish_volume, controller_unpublish_volume,
}

-- The answer is `InvalidArgument`, and the state is as before.
abbrev Rejected : {S A : Type 0} → S → Reply A × S → Type 0
Rejected s (r, s') = (code_of r ≡ some invalid_argument) × (s' ≡ s)

-- A request that lacks a field that is mandatory.
abbrev pub Incomplete : Rpc → Type 0
Incomplete (create req) = (req.name ≡ "") ⊎ (req.volume_capabilities ≡ [])
Incomplete (delete req) = req.volume_id ≡ ""
Incomplete (publish req) =
    (req.volume_id ≡ "") ⊎ (req.node_id ≡ "") ⊎ (req.volume_capability ≡ none)
Incomplete (unpublish req) = (req.volume_id ≡ "") ⊎ (req.node_id ≡ "")

-- The RPC over any cloud: the code of its error, if it has one, and the state after it.
abbrev pub handled : (cloud : GceCompute) → Rpc → Action cloud.State (Option Code)
handled cloud (create req) s =
    let (answered, s') = create_volume cloud req s in (code_of answered, s')
handled cloud (delete req) s =
    let (answered, s') = delete_volume cloud req s in (code_of answered, s')
handled cloud (publish req) s =
    let (answered, s') = controller_publish_volume cloud req s in (code_of answered, s')
handled cloud (unpublish req) s =
    let (answered, s') = controller_unpublish_volume cloud req s in (code_of answered, s')
