-- ===== src/Node/Service/Steps.antt =====
-- The answers to an RPC of the node service and the mount table that they leave: what the RPCs share.
use compute_persistent_disk.Prelude.{
  Option, Bool, true, false, not, ◌≡◌, ◌∙◌, sym, ap, subst, none, ◌∷◌, arith,
}
use compute_persistent_disk.Go.Error.{Err, Reply}
use compute_persistent_disk.Go.Handler.{Flow, returned}
use compute_persistent_disk.Csi.{Response}
use compute_persistent_disk.Mount.{Mounter}
use compute_persistent_disk.Mount.Table.{Table, MountTable, Takes, Takes-none, set_stack, is_seen}
use compute_persistent_disk.Node.Service.{
  NodeRpc, Served, mounted, unmounted, node_verdict_of, is_complete, is_mounting, path_of, accepted,
}

pub not-true : {b : Bool} → true ≡ not b → b ≡ false
not-true h = ground (arith, h)

pub not-false : {b : Bool} → false ≡ not b → b ≡ true
not-false h = ground (arith, h)

module _ (mounter : Mounter) (table : MountTable mounter) where
  open mounter use {State}
  open table use {place, stacks}

  -- An RPC that was asked for in a state, with its reply and the state that it leaves.
  abbrev pub Serves : State → NodeRpc → Reply Response × State → Type 0
  Serves s r (answered, after) = Served place (stacks s) r (node_verdict_of answered) (stacks after)

  abbrev pub BodyServes : State → NodeRpc → Flow (Reply Response) (Reply Response) × State → Type 0
  BodyServes s r (f, after) = Serves s r (returned f, after)

  -- A mount of the path of an RPC from a state with the same mounts.
  pub mounted_after :
      {s u v : State} (r : NodeRpc)
      → is_complete r ≡ true
      → is_mounting r ≡ true
      → is_seen (stacks s (place (path_of r))) ≡ false
      → (seen : Bool) × (stacks v
          ≡ set_stack (place (path_of r)) (seen ∷ stacks u (place (path_of r))) (stacks u))
      → stacks u ≡ stacks s
      → Served place (stacks s) r accepted (stacks v)
  mounted_after {s = s} r complete mounting free (seen, after) same =
      let path = place (path_of r) in
      subst (Served place (stacks s) r accepted)
        (sym (after ∙ ap (λ (t : Table). set_stack path (seen ∷ t path) t) same))
        (mounted r seen complete mounting free)

  -- An unmount of the path of an RPC.
  pub unmounted_after :
      {s v : State} {e : Option Err} (r : NodeRpc)
      → is_complete r ≡ true
      → is_mounting r ≡ false
      → Takes (place (path_of r)) (stacks s) e (stacks v)
      → e ≡ none
      → Served place (stacks s) r accepted (stacks v)
  unmounted_after {s = s} r complete unmounting takes h =
      let (seen, below, mounts, after) = Takes-none takes h in
      subst (Served place (stacks s) r accepted) (sym after)
        (unmounted r seen below complete unmounting mounts)
