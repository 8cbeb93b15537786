-- ===== src/Node/Staged.antt =====
-- What an answer of `NodeStageVolume` without an error says of the machine.
use compute_persistent_disk.Prelude.{
  String, Option, ◌≡◌, ◌≢◌, refl, sym, subst, ap, ◌∙◌, none, some, List, arith, ◌==◌, eq_iff, inl,
  inr, Bool-cases, Option-cases, is_nil,
}
use compute_persistent_disk.Utils.{split_zone_name_id}
use compute_persistent_disk.Go.Error.{
  answer, ok, Answer-cases, Reply, respond, is_ok, is_err, is_panic, Outcome-of, is_not_exist,
}
use compute_persistent_disk.Go.Handler.{Flow, returned}
use compute_persistent_disk.Csi.{NodeStageVolumeRequest, Response, response}
use compute_persistent_disk.Mount.{Mounter}
use compute_persistent_disk.Node.{
  node_stage_volume, mount_options, access_type_of, stage_device, stage_at, stage_named,
}

module _ (mounter : Mounter) (req : NodeStageVolumeRequest) where
  open mounter use {State}

  -- The device is mounted on the staging path with the file system and the options of the
  -- capability, and that was the last thing that was done.
  abbrev pub IsMounted : String → State → Type 0
  IsMounted device_path after =
      (fstype : String) × (options : List String) × (before : State) × (mount_options
          (access_type_of req.volume_capability)
        ≡ some (fstype, options))
      × ((mounter.format_and_mount device_path req.staging_target_path fstype options before).0
          ≡ none)
      × ((mounter.format_and_mount device_path req.staging_target_path fstype options before).1
          ≡ after)

  -- A stretch of the body that answers a response and no error has mounted the device.
  abbrev Mounts : String → Flow (Reply Response) (Reply Response) × State → Type 0
  Mounts device_path (r, after) = returned r ≡ respond response → IsMounted device_path after

  stage_device-Mounts :
      (device_path : String) (chosen : Option (String × List String)) (s : State)
      → mount_options (access_type_of req.volume_capability) ≡ chosen
      → Mounts device_path (stage_device mounter req device_path chosen s)
  stage_device-Mounts device_path none s e h = cc
  stage_device-Mounts device_path (some (fstype, options)) s e h =
      (fstype, options, s, e, ground arith, ground arith)

  from :
      (device_path : String) (x y : Flow (Reply Response) (Reply Response) × State)
      → x ≡ y
      → Mounts device_path y
      → Mounts device_path x
  from device_path x y e = subst (Mounts device_path) (sym e)

  stage_at-Mounts :
      (device_path : String) (s : State) → Mounts device_path (stage_at mounter req device_path s)
  stage_at-Mounts device_path s h =
      let chosen = mount_options (access_type_of req.volume_capability) in
      let (looked, t) = mounter.is_likely_not_mount_point req.staging_target_path s in
      let (made, u) = mounter.mkdir_all req.staging_target_path 0o750 t in
      let all = stage_at mounter req device_path s in
      let rest = stage_device mounter req device_path chosen in
      elim (Option-cases looked.1) [
        | inl e ↦ elim (Bool-cases looked.0) [
          | inl l ↦
              from device_path all (rest t) (rw (e, l))
                (stage_device-Mounts device_path chosen t refl) h
          | inr l ↦ absurd (ground arith)
        ]
        | inr (failure, e) ↦ elim (Bool-cases (is_not_exist failure)) [
          | inl n ↦ elim (Option-cases made) [
            | inl m ↦
                from device_path all (rest u) (rw (e, n, m))
                  (stage_device-Mounts device_path chosen u refl) h
            | inr (_, m) ↦ absurd (ground arith)
          ]
          | inr n ↦ absurd (ground arith)
        ]
      ]

  stage_named-mounts :
      (volume_name : String) (s : State)
      → returned (stage_named mounter req volume_name s).0 ≡ respond response
      → (device_path : String) × (device_path ≢ "")
        × ((mounter.verify_device_path (mounter.get_disk_by_id_paths volume_name "") s).0
            ≡ answer device_path)
        × IsMounted device_path (stage_named mounter req volume_name s).1
  stage_named-mounts volume_name s h =
      let paths = mounter.get_disk_by_id_paths volume_name "" in
      let (verified, t) = mounter.verify_device_path paths s in
      let all = stage_named mounter req volume_name s in
      elim (Answer-cases verified) [
        | inl (path, e) ↦ elim (Bool-cases (path == "")) [
          | inl p ↦ absurd (ground arith)
          | inr p ↦ (
            path,
            ground (arith, eq_iff path ""),
            e,
            from path all (stage_at mounter req path t) (rw (e, p)) (stage_at-Mounts path t) h,
          )
        ]
        | inr (_, e) ↦ absurd (ground arith)
      ]

  reaches :
      (s : State)
      → (node_stage_volume mounter req s).0 ≡ respond response
      → (zone : String) × (volume_name : String) × (split_zone_name_id req.volume_id
          ≡ ok (zone, volume_name))
        × (node_stage_volume mounter req s ≡ (
          returned (stage_named mounter req volume_name s).0,
          (stage_named mounter req volume_name s).1,
        ))
  unfolding node_stage_volume
  reaches s h = elim (Outcome-of (split_zone_name_id req.volume_id)) [
    | is_err e f ↦ absurd (ground arith)
    | is_panic f ↦ absurd (ground arith)
    | is_ok (zone, name) f ↦ elim (Bool-cases (req.volume_id == "")) [
      | inl a ↦ absurd (ground arith)
      | inr a ↦ elim (Bool-cases (req.staging_target_path == "")) [
        | inl b ↦ absurd (ground arith)
        | inr b ↦ elim (Bool-cases (is_nil req.volume_capability)) [
          | inl c ↦ absurd (ground arith)
          | inr c ↦ (zone, name, f, rw (a, b, c, f))
        ]
      ]
    ]
  ]

-- Where `NodeStageVolume` answers a response and no error, its volume ID splits, a device path
-- that is not empty would be answered for the name at the start, and `FormatAndMount` of it on
-- the staging path, with the file system and the options of the capability, has succeeded and was
-- the last thing that was done.
pub node_stage_volume-mounts :
    (mounter : Mounter) (req : NodeStageVolumeRequest) (s : mounter.State)
    → (node_stage_volume mounter req s).0 ≡ respond response
    → (zone volume_name device_path : String) × (split_zone_name_id req.volume_id
        ≡ ok (zone, volume_name))
      × ((mounter.verify_device_path (mounter.get_disk_by_id_paths volume_name "") s).0
          ≡ answer device_path)
      × (device_path ≢ "")
      × IsMounted mounter req device_path (node_stage_volume mounter req s).1
node_stage_volume-mounts mounter req s h =
    let (zone, name, split, e) = reaches mounter req s h in
    let (device_path, n, verified, mounted) =
      stage_named-mounts mounter req name s
        (sym (ap (λ (r : Reply Response × mounter.State). r.0) e) ∙ h) in
    (
      zone,
      name,
      device_path,
      split,
      verified,
      n,
      subst (IsMounted mounter req device_path)
          (sym (ap (λ (r : Reply Response × mounter.State). r.1) e)) mounted,
    )
