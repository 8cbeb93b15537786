-- ===== src/Node/Service/Unmounts.antt =====
-- `NodeUnpublishVolume` and `NodeUnstageVolume` over a mount table.
use compute_persistent_disk.Prelude.{
  true, false, ◌≡◌, refl, inl, inr, arith, Option-cases, Bool-cases,
}
use compute_persistent_disk.Go.Handler.{run}
use compute_persistent_disk.Csi.{NodeUnpublishVolumeRequest, NodeUnstageVolumeRequest}
use compute_persistent_disk.Mount.{Mounter}
use compute_persistent_disk.Mount.Table.{MountTable, Takes-some}
use compute_persistent_disk.Node.{
  node_unpublish_volume, unpublish_target, unstage_target, node_unstage_volume,
}
use compute_persistent_disk.Node.Service.{
  unpublish, unstage, refused, node_verdict_of, is_complete, failed,
}
use compute_persistent_disk.Node.Service.Steps.{Serves, unmounted_after}

module _ (mounter : Mounter) (table : MountTable mounter) where
  open mounter use {State}
  open table use {place, stacks}

  module _ (req : NodeUnpublishVolumeRequest) (s : State)
      (k : table.known req.target_path ≡ true) where
    unpublish_incomplete :
        is_complete (unpublish req) ≡ false
        → (node_verdict_of (node_unpublish_volume mounter req s).0 ≡ failed)
          × ((node_unpublish_volume mounter req s).1 ≡ s)
    unfolding node_unpublish_volume
    unpublish_incomplete h = ground (arith, h)

    unpublish_reaches :
        is_complete (unpublish req) ≡ true
        → node_unpublish_volume mounter req s ≡ run (unpublish_target mounter req) s
    unfolding node_unpublish_volume
    unpublish_reaches h = ground (arith, h)

    pub node_unpublish_volume-Serves :
        Serves mounter table s (unpublish req) (node_unpublish_volume mounter req s)
    node_unpublish_volume-Serves = elim (Bool-cases (is_complete (unpublish req))) [
      | inr h ↦ let (verdict, same) = unpublish_incomplete h in rw (verdict, same) (refused _)
      | inl h ↦
          let takes = table.unmount_takes req.target_path s k in
          elim (Option-cases (mounter.unmount_volume req.target_path s).0.1) [
            | inl e ↦
                rw (unpublish_reaches h, e)
                  (unmounted_after mounter table (unpublish req) h refl takes e)
            | inr (_, e) ↦ rw (unpublish_reaches h, e, Takes-some takes e) (refused _)
          ]
    ]

  module _ (req : NodeUnstageVolumeRequest) (s : State)
      (k : table.known req.staging_target_path ≡ true) where
    unstage_incomplete :
        is_complete (unstage req) ≡ false
        → (node_verdict_of (node_unstage_volume mounter req s).0 ≡ failed)
          × ((node_unstage_volume mounter req s).1 ≡ s)
    unfolding node_unstage_volume
    unstage_incomplete h = ground (arith, h)

    unstage_reaches :
        is_complete (unstage req) ≡ true
        → node_unstage_volume mounter req s ≡ run (unstage_target mounter req) s
    unfolding node_unstage_volume
    unstage_reaches h = ground (arith, h)

    pub node_unstage_volume-Serves :
        Serves mounter table s (unstage req) (node_unstage_volume mounter req s)
    node_unstage_volume-Serves = elim (Bool-cases (is_complete (unstage req))) [
      | inr h ↦ let (verdict, same) = unstage_incomplete h in rw (verdict, same) (refused _)
      | inl h ↦
          let takes = table.unmount_takes req.staging_target_path s k in
          elim (Option-cases (mounter.unmount_volume req.staging_target_path s).0.1) [
            | inl e ↦
                rw (unstage_reaches h, e)
                  (unmounted_after mounter table (unstage req) h refl takes e)
            | inr (_, e) ↦ rw (unstage_reaches h, e, Takes-some takes e) (refused _)
          ]
    ]
