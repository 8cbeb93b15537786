-- ===== src/Controller/Publish/Attached.antt =====
-- `ControllerPublishVolume` over the cloud provider: what its success says of the cloud.
use compute_persistent_disk.Prelude.{
  String, Option, ◌≡◌, ◌⊎◌, refl, sym, subst, inl, inr, true, none, arith, ◌==◌, is_nil, Bool-cases,
  Option-cases,
}
use compute_persistent_disk.Go.Error.{
  ok, answer, Answer-cases, Reply, respond, is_ok, is_err, is_panic, Outcome-of,
}
use compute_persistent_disk.Csi.{ControllerPublishVolumeRequest, Response, response}
use compute_persistent_disk.Utils.{split_zone_name_id}
use compute_persistent_disk.Cloud.{Disk, AttachedDisk, Instance, Operation, GceCompute}
use compute_persistent_disk.Cloud.Poll.{Poll, IsPoll}
use compute_persistent_disk.Cloud.Provider
use compute_persistent_disk.Cloud.Provider.{ComputeService, cloud_provider, wait_for_op}
use compute_persistent_disk.Cloud.Provider.Wait.{SeenDone, waited-SeenDone}
use compute_persistent_disk.Controller.Publish.{
  controller_publish_volume, publish_named, disk_is_attached_and_compatible, read_write_mode,
}

module _ (cloud : GceCompute) (req : ControllerPublishVolumeRequest) where
  open cloud use {State}

  -- The last call read an instance that has the disk, in the mode that is asked for.
  abbrev pub FoundAttached : String → Disk → State → Type 0
  FoundAttached zone disk after =
      (i : Instance) × (u : State) × (cloud.get_instance_or_error zone req.node_id u
        ≡ (ok i, after))
      × (disk_is_attached_and_compatible disk i (read_write_mode req.readonly) ≡ (true, none))

  -- The attachment of the disk that is asked for.
  abbrev pub wanted : String → Disk → AttachedDisk
  wanted zone disk = record {
    device_name = disk.name;
    kind = disk.kind;
    mode = read_write_mode req.readonly;
    source = cloud.get_disk_source_uri disk zone;
    type = disk.type;
  }

  -- The last call waited for the operation of that attachment, and succeeded.
  abbrev pub Waited : String → Disk → State → Type 0
  Waited zone disk after =
      (attach_op : Option Operation) × (t u : State) × ((cloud.attach_disk zone req.node_id
          (wanted zone disk) t).0
        ≡ ok attach_op)
      × ((cloud.wait_for_op attach_op zone u).0 ≡ ok tt)
      × ((cloud.wait_for_op attach_op zone u).1 ≡ after)

  attach-Waited :
      (zone : String) (disk : Disk) (u : State)
      → let attached = cloud.attach_disk zone req.node_id (wanted zone disk) u in
        (attach_op : Option Operation)
        → attached.0 ≡ ok attach_op
        → (cloud.wait_for_op attach_op zone attached.1).0 ≡ ok tt
        → Waited zone disk (cloud.wait_for_op attach_op zone attached.1).1
  attach-Waited zone disk u attach_op e f = (attach_op, u, _, e, f, refl)

  publish_named-reached :
      (zone name : String) (s : State)
      → (publish_named cloud req zone name s).0 ≡ respond response
      → (disk : Disk) × ((cloud.get_disk_or_error zone name s).0 ≡ ok disk)
        × (FoundAttached zone disk (publish_named cloud req zone name s).1
            ⊎ Waited zone disk (publish_named cloud req zone name s).1)
  unfolding publish_named
  publish_named-reached zone name s h =
      let m = read_write_mode req.readonly in
      let (found, t) = cloud.get_disk_or_error zone name s in
      elim (Outcome-of found) [
        | is_err e a ↦ absurd (ground arith)
        | is_panic a ↦ absurd (ground arith)
        | is_ok disk a ↦
            let (there, u) = cloud.get_instance_or_error zone req.node_id t in
            elim (Outcome-of there) [
              | is_err e b ↦ absurd (ground arith)
              | is_panic b ↦ absurd (ground arith)
              | is_ok i b ↦
                  let fits = disk_is_attached_and_compatible disk i m in
                  elim (Option-cases fits.1) [
                    | inr (failure, c) ↦ absurd (ground arith)
                    | inl c ↦ elim (Bool-cases fits.0) [
                      | inl d ↦ (
                        disk,
                        a,
                        inl (rw (a, b, c, d) (i, t, (λ k. (b k, u)), (λ k. (d k, c k)))),
                      )
                      | inr d ↦
                          let (attached, v) =
                            cloud.attach_disk zone req.node_id (wanted zone disk) u in
                          elim (Outcome-of attached) [
                            | is_err e f ↦ absurd (ground arith)
                            | is_panic f ↦ absurd (ground arith)
                            | is_ok attach_op f ↦
                                elim (Outcome-of (cloud.wait_for_op attach_op zone v).0) [
                                  | is_err e g ↦ absurd (ground arith)
                                  | is_panic g ↦ absurd (ground arith)
                                  | is_ok _ g ↦ (
                                    disk,
                                    a,
                                    inr (
                                        rw (a, b, c, d, f, g)
                                          (attach-Waited zone disk u attach_op f g)),
                                  )
                                ]
                          ]
                    ]
                  ]
            ]
      ]

  -- A request that is answered passed the guards and was left to `publish_named`.
  publish-named :
      (s : State)
      → (controller_publish_volume cloud req s).0 ≡ respond response
      → (zone name : String) × (split_zone_name_id req.volume_id ≡ ok (zone, name))
        × (controller_publish_volume cloud req s ≡ publish_named cloud req zone name s)
  unfolding controller_publish_volume
  publish-named s h = elim (Bool-cases (req.volume_id == "")) [
    | inl a ↦ absurd (ground arith)
    | inr a ↦ elim (Bool-cases (req.node_id == "")) [
      | inl b ↦ absurd (ground arith)
      | inr b ↦ elim (Bool-cases (is_nil req.volume_capability)) [
        | inl c ↦ absurd (ground arith)
        | inr c ↦ elim (Outcome-of (split_zone_name_id req.volume_id)) [
          | is_err e d ↦ absurd (ground arith)
          | is_panic d ↦ absurd (ground arith)
          | is_ok (zone, name) d ↦ (zone, name, d, rw (a, b, c, d) refl)
        ]
      ]
    ]
  ]

module _ (svc : ComputeService) (poll : Poll svc.State) (project : String) where
  -- The operation of an attachment to the node was seen done, and that was the last call.
  abbrev pub AttachDone : String → String → AttachedDisk → svc.State → Type 0
  AttachDone zone node attached_disk after =
      (op : Operation) × (t : svc.State) × ((svc.instances_attach_disk project zone node
          attached_disk t).0
        ≡ answer op)
      × SeenDone svc project zone op after

  Waited-AttachDone :
      (default_zone zone : String) (req : ControllerPublishVolumeRequest) (disk : Disk)
      (after : svc.State)
      → IsPoll poll
      → let cloud = cloud_provider svc poll project default_zone in
        Waited cloud req zone disk after
        → AttachDone zone req.node_id (wanted cloud req zone disk) after
  unfolding Provider.attach_disk
  Waited-AttachDone default_zone zone req disk after law (attach_op, t, u, asked, waited, ended) =
      let a = wanted (cloud_provider svc poll project default_zone) req zone disk in
      elim (Answer-cases (svc.instances_attach_disk project zone req.node_id a t).0) [
        | inr (failure, e) ↦ absurd (ground arith)
        | inl (op, e) ↦ (
          op,
          t,
          e,
          waited-SeenDone svc poll project law attach_op op zone u after (ground arith) waited
              ended,
        )
      ]

-- Over the cloud provider, where the polling is as documented: when `ControllerPublishVolume`
-- answers a response and no error, its volume ID splits, its first GET answered the disk, and its
-- last call was either the GET of an instance that has that disk already, in the mode that is
-- asked for, or the GET of the operation of the attachment of that disk to the node in that mode,
-- with the status DONE.
pub publish-AttachDone :
    (svc : ComputeService) (poll : Poll svc.State) (project default_zone : String)
    (req : ControllerPublishVolumeRequest) (s : svc.State)
    → IsPoll poll
    → let cloud = cloud_provider svc poll project default_zone in
      let published = controller_publish_volume cloud req s in
      published.0 ≡ respond response
      → (zone name : String) × (split_zone_name_id req.volume_id ≡ ok (zone, name))
        × (disk : Disk) × ((cloud.get_disk_or_error zone name s).0 ≡ ok disk)
        × (FoundAttached cloud req zone disk published.1
            ⊎ AttachDone svc poll project zone req.node_id (wanted cloud req zone disk) published.1)
publish-AttachDone svc poll project default_zone req s law h =
    let cloud = cloud_provider svc poll project default_zone in
    let (zone, name, split, whole) = publish-named cloud req s h in
    let (disk, e, last) =
      publish_named-reached cloud req zone name s
        (subst (λ (p : Reply Response × svc.State). p.0 ≡ respond response) whole h) in
    (
      zone,
      name,
      split,
      disk,
      e,
      subst
          (λ (p : Reply Response × svc.State).
            FoundAttached cloud req zone disk p.1
            ⊎ AttachDone svc poll project zone req.node_id (wanted cloud req zone disk) p.1)
          (sym whole)
          (elim last [
            | inl found ↦ inl found
            | inr waited ↦
                inr (Waited-AttachDone svc poll project default_zone zone req disk _ law waited)
          ]),
    )
