-- ===== src/Node/Unwound.antt =====
-- What `NodePublishVolume` leaves of a target on which the mount has failed.
use compute_persistent_disk.Prelude.{
  String, Option, ◌≡◌, ◌≢◌, ◌⊎◌, refl, inl, inr, true, false, none, some, arith, ◌==◌, eq_iff,
  is_nil, Bool-cases, Option-cases,
}
use compute_persistent_disk.Go.Error.{Err, Reply, code_of, internal}
use compute_persistent_disk.Go.Handler.{Flow, returned}
use compute_persistent_disk.Csi.{NodePublishVolumeRequest, Response}
use compute_persistent_disk.Mount.{Mounter}
use compute_persistent_disk.Node.{node_publish_volume, publish_result, but_not_exist}
use compute_persistent_disk.Node.Mounted.{bind_mount}

ne_empty : (x : String) → x ≢ "" → (x == "") ≡ false
ne_empty x n = ground (arith, eq_iff x "")

ne_none : {A : Type 0} (x : Option A) → x ≢ none → is_nil x ≡ false
ne_none none n = absurd (n refl)
ne_none (some x) n = refl

module _ (mounter : Mounter) (target_path : String) where
  open mounter use {State}

  -- The last call removed the target, right after a check that it is no mount point.
  abbrev pub Removed : State → Type 0
  Removed after =
      (u v : State) × (mounter.is_likely_not_mount_point target_path u ≡ ((true, none), v))
      × ((mounter.remove target_path v).1 ≡ after)

  -- The last call was a check that does not say so, or an unmount that failed.
  abbrev pub Kept : State → Type 0
  Kept after =
      (u : State) × ((((mounter.is_likely_not_mount_point target_path u).1 ≡ after)
          × (((mounter.is_likely_not_mount_point target_path u).0.0 ≡ false)
              ⊎ ((mounter.is_likely_not_mount_point target_path u).0.1 ≢ none)))
        ⊎ (((mounter.unmount_volume target_path u).1 ≡ after)
            × ((mounter.unmount_volume target_path u).0.1 ≢ none)))

  -- The answer is `Internal`, and the target was removed or kept.
  abbrev Unwound : Flow (Reply Response) (Reply Response) × State → Type 0
  Unwound (r, after) = (code_of (returned r) ≡ some internal) × (Removed after ⊎ Kept after)

  publish_result-Unwound :
      (failure : Err) (s : State) → Unwound (publish_result mounter target_path (some failure) s)
  publish_result-Unwound failure s =
      let ((n, e), t) = mounter.is_likely_not_mount_point target_path s in
      elim (Option-cases e) [
        | inr (f, a) ↦ rw a (refl, inr (s, inl (refl, inr (ground arith))))
        | inl a ↦ elim (Bool-cases n) [
          | inl b ↦ rw (a, b) (refl, inl (s, t, (λ k. ((b k, a k), t)), refl))
          | inr b ↦
              let ((out, g), u) = mounter.unmount_volume target_path t in
              elim (Option-cases g) [
                | inr (f, c) ↦ rw (a, b, c) (refl, inr (t, inr (refl, ground arith)))
                | inl c ↦
                    let ((n', e'), v) = mounter.is_likely_not_mount_point target_path u in
                    elim (Option-cases e') [
                      | inr (f, d) ↦ rw (a, b, c, d) (refl, inr (u, inl (refl, inr (ground arith))))
                      | inl d ↦ elim (Bool-cases n') [
                        | inl i ↦
                            rw (a, b, c, d, i) (refl, inl (u, v, (λ k. ((i k, d k), v)), refl))
                        | inr i ↦ rw (a, b, c, d, i) (refl, inr (u, inl (refl, inl i)))
                      ]
                    ]
              ]
        ]
      ]

-- Where `NodePublishVolume` of a request with its mandatory fields finds the target to be no
-- mount point, with no error but that it does not exist, makes it, and fails to mount it, the
-- answer is `Internal`, and its last call either removed the target, right after a check that
-- answered without an error that the target is no mount point, or was a check that did not answer
-- so or an unmount that failed.
pub node_publish_volume-Unwound :
    (mounter : Mounter) (req : NodePublishVolumeRequest) (failure : Err) (s : mounter.State)
    → req.volume_id ≢ ""
    → req.staging_target_path ≢ ""
    → req.target_path ≢ ""
    → req.volume_capability ≢ none
    → (mounter.is_likely_not_mount_point req.target_path s).0.0 ≡ true
    → but_not_exist (mounter.is_likely_not_mount_point req.target_path s).0.1 ≡ none
    → (mounter.mkdir_all req.target_path 0o750
        (mounter.is_likely_not_mount_point req.target_path s).1).0
      ≡ none
    → (bind_mount mounter req s).0 ≡ some failure
    → (code_of (node_publish_volume mounter req s).0 ≡ some internal)
      × (Removed mounter req.target_path (node_publish_volume mounter req s).1
          ⊎ Kept mounter req.target_path (node_publish_volume mounter req s).1)
unfolding node_publish_volume
node_publish_volume-Unwound mounter req failure s v g t c check sound made failed =
    rw
      (
        ne_empty req.volume_id v,
        ne_empty req.staging_target_path g,
        ne_empty req.target_path t,
        ne_none req.volume_capability c,
        check,
        sound,
        made,
        failed,
      )
      (publish_result-Unwound mounter req.target_path failure (bind_mount mounter req s).1)
