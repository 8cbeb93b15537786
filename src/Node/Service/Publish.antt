-- ===== src/Node/Service/Publish.antt =====
-- `NodePublishVolume` over a mount table.
use compute_persistent_disk.Prelude.{
  String, true, false, ◌≡◌, ◌∙◌, refl, sym, ap, inl, inr, List, [], ◌∷◌, if◌then◌else◌, some, arith,
  Option-cases, Bool-cases,
}
use compute_persistent_disk.Go.Error.{Err, is_not_exist}
use compute_persistent_disk.Go.Handler.{returned}
use compute_persistent_disk.Csi.{NodePublishVolumeRequest}
use compute_persistent_disk.Mount.{Mounter}
use compute_persistent_disk.Mount.Table.{
  MountTable, is_seen, CheckedAs-none, CheckedAs-is_not_exist, Adds-none, Adds-some,
}
use compute_persistent_disk.Node.{node_publish_volume, publish_result, bind_target, check_target}
use compute_persistent_disk.Node.Service.{
  publish, was_mounted, refused, node_verdict_of, is_complete, failed,
}
use compute_persistent_disk.Node.Service.Steps.{
  not-true, not-false, Serves, BodyServes, mounted_after,
}

module _ (mounter : Mounter) (table : MountTable mounter) where
  open mounter use {State}
  open table use {place, stacks}

  module _ (req : NodePublishVolumeRequest) (s : State)
      (k : table.known req.target_path ≡ true) where
    publish_result-Serves :
        (failure : Err) (v : State)
        → stacks v ≡ stacks s
        → is_seen (stacks s (place req.target_path)) ≡ false
        → BodyServes mounter table s
            (publish req)
            (publish_result mounter req.target_path (some failure) v)
    publish_result-Serves failure v same free =
        let ((n, e), w) = mounter.is_likely_not_mount_point req.target_path v in
        let looked = table.check_keeps req.target_path v ∙ same in
        elim (Option-cases e) [
          | inr (_, a) ↦ rw (a, looked) (refused _)
          | inl a ↦
              let free' = ap (λ d. is_seen (d (place req.target_path))) same ∙ free in
              let b : n ≡ true =
                ground (arith, free', CheckedAs-none (table.check_tells req.target_path v k) a) in
              rw (a, b, table.remove_keeps req.target_path w ∙ looked) (refused _)
        ]

    bind_target-Serves :
        (t : State)
        → is_complete (publish req) ≡ true
        → stacks t ≡ stacks s
        → is_seen (stacks s (place req.target_path)) ≡ false
        → BodyServes mounter table s (publish req) (bind_target mounter req t)
    bind_target-Serves t complete same free =
        let path = place req.target_path in
        let options : List String = if req.readonly then "bind" ∷ "ro" ∷ [] else "bind" ∷ [] in
        let (made, u) = mounter.mkdir_all req.target_path 0o750 t in
        let kept = table.mkdir_keeps req.target_path 0o750 t ∙ same in
        let (bound, v) =
          mounter.do_mount req.staging_target_path req.target_path "ext4" options u in
        let adds =
          table.mount_adds req.staging_target_path req.target_path "ext4" options u
            (table.bind_is_plain req.readonly) k in
        elim (Option-cases made) [
          | inr (_, a) ↦ rw (a, kept) (refused _)
          | inl a ↦ elim (Option-cases bound) [
            | inr (failure, b) ↦
                rw (a, b) (publish_result-Serves failure v (Adds-some adds b ∙ kept) free)
            | inl b ↦
                rw (a, b)
                  (mounted_after mounter table (publish req) complete refl free (Adds-none adds b)
                    kept)
          ]
        ]

    check_target-Serves :
        is_complete (publish req) ≡ true
        → BodyServes mounter table s (publish req) (check_target mounter req s)
    check_target-Serves complete =
        let ((n, e), t) = mounter.is_likely_not_mount_point req.target_path s in
        let same = table.check_keeps req.target_path s in
        let tells = table.check_tells req.target_path s k in
        elim (Option-cases e) [
          | inl a ↦ elim (Bool-cases n) [
            | inl b ↦
                rw (a, b)
                  (bind_target-Serves t complete same (not-true (sym b ∙ CheckedAs-none tells a)))
            | inr b ↦
                rw (a, b, same)
                  (was_mounted req complete (not-false (sym b ∙ CheckedAs-none tells a)))
          ]
          | inr (failure, a) ↦ elim (Bool-cases (is_not_exist failure)) [
            | inr c ↦ rw (a, c, same) (refused _)
            | inl c ↦
                let (free, b) = CheckedAs-is_not_exist tells a c in
                rw (a, c, b) (bind_target-Serves t complete same free)
          ]
        ]

    publish_reaches :
        is_complete (publish req) ≡ true
        → node_publish_volume mounter req s
          ≡ (returned (check_target mounter req s).0, (check_target mounter req s).1)
    unfolding node_publish_volume
    publish_reaches h = ground (arith, h)

    publish_incomplete :
        is_complete (publish req) ≡ false
        → (node_verdict_of (node_publish_volume mounter req s).0 ≡ failed)
          × ((node_publish_volume mounter req s).1 ≡ s)
    unfolding node_publish_volume
    publish_incomplete h = ground (arith, h)

    pub node_publish_volume-Serves :
        Serves mounter table s (publish req) (node_publish_volume mounter req s)
    node_publish_volume-Serves = elim (Bool-cases (is_complete (publish req))) [
      | inl h ↦ rw (publish_reaches h) (check_target-Serves h)
      | inr h ↦ let (verdict, same) = publish_incomplete h in rw (verdict, same) (refused _)
    ]
