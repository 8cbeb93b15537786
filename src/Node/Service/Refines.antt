-- ===== src/Node/Service/Refines.antt =====
-- Sequences of RPCs of the node service over `GCEMounter`, and what the service promises.
use compute_persistent_disk.Prelude.{String, Bool, true, ◌&&◌, ◌≡◌, List, [], ◌∷◌, arith}
use compute_persistent_disk.Mount.{Mounter}
use compute_persistent_disk.Mount.Gce.{Os, gce_mounter}
use compute_persistent_disk.Mount.Table.{Table, MountTable}
use compute_persistent_disk.Mount.Table.Machine.{Mounts}
use compute_persistent_disk.Mount.Table.Gce.{gce_mounter_table}
use compute_persistent_disk.Node.Service.{
  NodeRpc, stage, publish, unpublish, unstage, NodeVerdict, node_verdict_of, serve, is_asked,
  Served,
}
use compute_persistent_disk.Node.Service.Publish.{node_publish_volume-Serves}
use compute_persistent_disk.Node.Service.Stage.{node_stage_volume-Serves}
use compute_persistent_disk.Node.Service.Unmounts.{
  node_unpublish_volume-Serves, node_unstage_volume-Serves,
}

-- A sequence of RPCs, on a machine and as promised.
unfoldable pub serve_all :
    (mounter : Mounter) → List NodeRpc → mounter.State → List NodeVerdict × mounter.State
serve_all mounter [] s = ([], s)
serve_all mounter (r ∷ rs) s =
    let (answered, s') = serve mounter r s in
    let (vs, last) = serve_all mounter rs s' in (node_verdict_of answered ∷ vs, last)

pub data ServedRun (place : String → String)
    : Table → List NodeRpc → List NodeVerdict → Table → Type 0 where
  served_none : (t : Table) → ServedRun place t [] [] t
  served_one :
      {t t' t'' : Table} {r : NodeRpc} {rs : List NodeRpc} {v : NodeVerdict} {vs : List NodeVerdict}
      → Served place t r v t'
      → ServedRun place t' rs vs t''
      → ServedRun place t (r ∷ rs) (v ∷ vs) t''

abbrev pub all_asked : (String → Bool) → (List String → Bool) → List NodeRpc → Bool
all_asked known plain [] = true
all_asked known plain (r ∷ rs) = is_asked known plain r && all_asked known plain rs

serve-Served :
    (mounter : Mounter) (table : MountTable mounter) (r : NodeRpc) (s : mounter.State)
    → is_asked table.known table.plain r ≡ true
    → Served table.place
        (table.stacks s)
        r
        (node_verdict_of (serve mounter r s).0)
        (table.stacks (serve mounter r s).1)
serve-Served mounter table (stage req) s p =
    node_stage_volume-Serves mounter table req s (ground (arith, p)) (ground (arith, p))
serve-Served mounter table (publish req) s p =
    node_publish_volume-Serves mounter table req s (ground (arith, p))
serve-Served mounter table (unpublish req) s p =
    node_unpublish_volume-Serves mounter table req s (ground (arith, p))
serve-Served mounter table (unstage req) s p =
    node_unstage_volume-Serves mounter table req s (ground (arith, p))

serve_all-ServedRun :
    (mounter : Mounter) (table : MountTable mounter) (rs : List NodeRpc) (s : mounter.State)
    → all_asked table.known table.plain rs ≡ true
    → ServedRun table.place
        (table.stacks s)
        rs
        (serve_all mounter rs s).0
        (table.stacks (serve_all mounter rs s).1)
unfolding serve_all
serve_all-ServedRun mounter table [] s p = served_none _
serve_all-ServedRun mounter table (r ∷ rs) s p =
    served_one (serve-Served mounter table r s (ground (arith, p)))
      (serve_all-ServedRun mounter table rs (serve mounter r s).1 (ground (arith, p)))

-- On any machine that treats its mounts as `Mounts` says, any sequence of RPCs of the node
-- service over `GCEMounter`, where the path of each request is a known one and the mount options
-- of each request to stage are plain, does to the mounts what the abstract service promises, RPC
-- by RPC: one that is accepted is complete, and either puts one mount more on its path, where the
-- last one there was not seen or there was none, or takes the last one off it; a publication on a
-- mount that is seen is answered by no error and no response and changes nothing; what fails
-- changes nothing; and no RPC panics.
pub serve_all_refines :
    (os : Os) (mounts : Mounts os) (rs : List NodeRpc) (s : os.State)
    → all_asked mounts.known mounts.plain rs ≡ true
    → ServedRun mounts.place
        (mounts.stacks s)
        rs
        (serve_all (gce_mounter os) rs s).0
        (mounts.stacks (serve_all (gce_mounter os) rs s).1)
serve_all_refines os mounts rs s p =
    serve_all-ServedRun (gce_mounter os) (gce_mounter_table os mounts) rs s p
