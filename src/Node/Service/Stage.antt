-- ===== src/Node/Service/Stage.antt =====
-- `NodeStageVolume` over a mount table.
use compute_persistent_disk.Prelude.{
  String, true, false, ◌≡◌, ◌∙◌, refl, sym, ap, inl, inr, Option, none, some, List, ◌==◌, is_nil,
  Option-cases, Bool-cases,
}
use compute_persistent_disk.Go.Error.{
  is_not_exist, Answer-cases, is_ok, is_err, is_panic, Outcome-of,
}
use compute_persistent_disk.Csi.{NodeStageVolumeRequest}
use compute_persistent_disk.Utils.{split_zone_name_id}
use compute_persistent_disk.Utils.VolumeId.{split_zone_name_id-ne-panic}
use compute_persistent_disk.Mount.{Mounter}
use compute_persistent_disk.Mount.Table.{
  MountTable, is_seen, CheckedAs-none, CheckedAs-is_not_exist, Adds-none, Adds-some,
}
use compute_persistent_disk.Node.{
  node_stage_volume, mount_options, access_type_of, stage_device, stage_at, stage_named,
}
use compute_persistent_disk.Node.Service.{stage, refused, is_complete, is_plain, options_are}
use compute_persistent_disk.Node.Service.Steps.{not-true, Serves, BodyServes, mounted_after}

module _ (mounter : Mounter) (table : MountTable mounter) where
  open mounter use {State}
  open table use {place, stacks, plain}

  module _ (req : NodeStageVolumeRequest) (s : State)
      (k : table.known req.staging_target_path ≡ true) where
    abbrev chosen : Option (String × List String)
    chosen = mount_options (access_type_of req.volume_capability)

    stage_device-Serves :
        (device_path : String) (o : Option (String × List String)) (t : State)
        → chosen ≡ o
        → is_plain plain (stage req) ≡ true
        → ((c : String × List String) → chosen ≡ some c → is_complete (stage req) ≡ true)
        → stacks t ≡ stacks s
        → is_seen (stacks s (place req.staging_target_path)) ≡ false
        → BodyServes mounter table s (stage req) (stage_device mounter req device_path o t)
    stage_device-Serves device_path none t h p complete same free = rw same (refused _)
    stage_device-Serves device_path (some (fstype, options)) t h p complete same free =
        let path = req.staging_target_path in
        let adds =
          table.format_adds device_path path fstype options t (sym (ap (options_are plain) h) ∙ p)
            k in
        elim (Option-cases (mounter.format_and_mount device_path path fstype options t).0) [
          | inl e ↦ rw e (
              mounted_after mounter table (stage req) (complete _ h) refl free (Adds-none adds e)
                same)
          | inr (_, e) ↦ rw (e, Adds-some adds e, same) (refused _)
        ]

    stage_at-Serves :
        (device_path : String) (t : State)
        → is_plain plain (stage req) ≡ true
        → ((c : String × List String) → chosen ≡ some c → is_complete (stage req) ≡ true)
        → stacks t ≡ stacks s
        → BodyServes mounter table s (stage req) (stage_at mounter req device_path t)
    stage_at-Serves device_path t p complete same =
        let path = req.staging_target_path in
        let ((n, e), u) = mounter.is_likely_not_mount_point path t in
        let looked = table.check_keeps path t ∙ same in
        let tells = table.check_tells path t k in
        let (made, v) = mounter.mkdir_all path 0o750 u in
        let kept = table.mkdir_keeps path 0o750 u ∙ looked in
        let at = sym (ap (λ d. is_seen (d (place path))) same) in
        elim (Option-cases e) [
          | inl a ↦ elim (Bool-cases n) [
            | inl b ↦
                rw (a, b)
                  (stage_device-Serves device_path chosen u refl p complete looked
                    (at ∙ not-true (sym b ∙ CheckedAs-none tells a)))
            | inr b ↦ rw (a, b, looked) (refused _)
          ]
          | inr (failure, a) ↦ elim (Bool-cases (is_not_exist failure)) [
            | inr b ↦ rw (a, b, looked) (refused _)
            | inl b ↦ elim (Option-cases made) [
              | inl c ↦
                  rw (a, b, c)
                    (stage_device-Serves device_path chosen v refl p complete kept
                      (at ∙ (CheckedAs-is_not_exist tells a b).0))
              | inr (_, c) ↦ rw (a, b, c, kept) (refused _)
            ]
          ]
        ]

    stage_named-Serves :
        (volume_name : String)
        → is_plain plain (stage req) ≡ true
        → ((c : String × List String) → chosen ≡ some c → is_complete (stage req) ≡ true)
        → BodyServes mounter table s (stage req) (stage_named mounter req volume_name s)
    stage_named-Serves volume_name p complete =
        let paths = mounter.get_disk_by_id_paths volume_name "" in
        let (verified, t) = mounter.verify_device_path paths s in
        let same = table.verify_keeps paths s in
        elim (Answer-cases verified) [
          | inr (_, e) ↦ rw (e, same) (refused _)
          | inl (path, e) ↦ elim (Bool-cases (path == "")) [
            | inl h ↦ rw (e, h, same) (refused _)
            | inr h ↦ rw (e, h) (stage_at-Serves path t p complete same)
          ]
        ]

    pub node_stage_volume-Serves :
        is_plain plain (stage req) ≡ true
        → Serves mounter table s (stage req) (node_stage_volume mounter req s)
    unfolding node_stage_volume
    node_stage_volume-Serves p = elim (Bool-cases (req.volume_id == "")) [
      | inl a ↦ rw a (refused _)
      | inr a ↦ elim (Bool-cases (req.staging_target_path == "")) [
        | inl b ↦ rw (a, b) (refused _)
        | inr b ↦ elim (Bool-cases (is_nil req.volume_capability)) [
          | inl c ↦ rw (a, b, c) (refused _)
          | inr c ↦ elim (Outcome-of (split_zone_name_id req.volume_id)) [
            | is_err e f ↦ rw (a, b, c, f) (refused _)
            | is_panic f ↦ absurd (split_zone_name_id-ne-panic req.volume_id f)
            | is_ok (zone, name) f ↦
                rw (a, b, c, f) (stage_named-Serves name p (λ o h. rw (a, b, c, f, h) refl))
          ]
        ]
      ]
    ]
