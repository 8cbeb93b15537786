-- ===== src/Controller/Publish/Detached.antt =====
-- `ControllerUnpublishVolume` over the cloud provider: what its success says of the cloud.
use compute_persistent_disk.Prelude.{
  String, Option, ◌≡◌, ◌⊎◌, refl, sym, subst, inl, inr, false, arith, ◌==◌, Bool-cases,
}
use compute_persistent_disk.Go.Error.{
  ok, answer, Answer-cases, Reply, respond, is_ok, is_err, is_panic, Outcome-of,
}
use compute_persistent_disk.Csi.{ControllerUnpublishVolumeRequest, Response, response}
use compute_persistent_disk.Utils.{split_zone_name_id}
use compute_persistent_disk.Cloud.{Disk, Instance, Operation, GceCompute}
use compute_persistent_disk.Cloud.Poll.{Poll, IsPoll}
use compute_persistent_disk.Cloud.Provider
use compute_persistent_disk.Cloud.Provider.{ComputeService, cloud_provider}
use compute_persistent_disk.Cloud.Provider.Wait.{SeenDone, waited-SeenDone}
use compute_persistent_disk.Controller.Publish.{
  controller_unpublish_volume, unpublish_named, disk_is_attached,
}

module _ (cloud : GceCompute) (req : ControllerUnpublishVolumeRequest) where
  open cloud use {State}

  -- The last call read an instance that does not have the disk.
  abbrev pub FoundDetached : String → Disk → State → Type 0
  FoundDetached zone disk after =
      (i : Instance) × (u : State) × (cloud.get_instance_or_error zone req.node_id u
        ≡ (ok i, after))
      × (disk_is_attached disk i ≡ false)

  -- The last call waited for the operation of the detachment, and succeeded.
  abbrev pub Waited : String → String → State → Type 0
  Waited zone name after =
      (detach_op : Option Operation) × (t u : State) × ((cloud.detach_disk zone req.node_id name
          t).0
        ≡ ok detach_op)
      × ((cloud.wait_for_op detach_op zone u).0 ≡ ok tt)
      × ((cloud.wait_for_op detach_op zone u).1 ≡ after)

  -- The rest of the RPC, where the instance has the disk.
  detach-Waited :
      (zone name : String) (u : State) (detach_op : Option Operation)
      → let detached = cloud.detach_disk zone req.node_id name u in
        detached.0 ≡ ok detach_op
        → (cloud.wait_for_op detach_op zone detached.1).0 ≡ ok tt
        → Waited zone name (cloud.wait_for_op detach_op zone detached.1).1
  detach-Waited zone name u detach_op e f = (detach_op, u, _, e, f, refl)

  unpublish_named-reached :
      (zone name : String) (s : State)
      → (unpublish_named cloud req zone name s).0 ≡ respond response
      → (disk : Disk) × ((cloud.get_disk_or_error zone name s).0 ≡ ok disk)
        × (FoundDetached zone disk (unpublish_named cloud req zone name s).1
            ⊎ Waited zone name (unpublish_named cloud req zone name s).1)
  unfolding unpublish_named
  unpublish_named-reached zone name s h =
      let (found, t) = cloud.get_disk_or_error zone name s in
      elim (Outcome-of found) [
        | is_err e a ↦ absurd (ground arith)
        | is_panic a ↦ absurd (ground arith)
        | is_ok disk a ↦
            let (there, u) = cloud.get_instance_or_error zone req.node_id t in
            elim (Outcome-of there) [
              | is_err e b ↦ absurd (ground arith)
              | is_panic b ↦ absurd (ground arith)
              | is_ok i b ↦ elim (Bool-cases (disk_is_attached disk i)) [
                | inr c ↦ (disk, a, inl (rw (a, b, c) (i, t, (λ k. (b k, u)), c)))
                | inl c ↦
                    let (detached, v) = cloud.detach_disk zone req.node_id name u in
                    elim (Outcome-of detached) [
                      | is_err e f ↦ absurd (ground arith)
                      | is_panic f ↦ absurd (ground arith)
                      | is_ok detach_op f ↦
                          elim (Outcome-of (cloud.wait_for_op detach_op zone v).0) [
                            | is_err e g ↦ absurd (ground arith)
                            | is_panic g ↦ absurd (ground arith)
                            | is_ok _ g ↦ (
                              disk,
                              a,
                              inr (rw (a, b, c, f, g) (detach-Waited zone name u detach_op f g)),
                            )
                          ]
                    ]
              ]
            ]
      ]

  -- A request that is answered passed the guards and was left to `unpublish_named`.
  unpublish-named :
      (s : State)
      → (controller_unpublish_volume cloud req s).0 ≡ respond response
      → (zone name : String) × (split_zone_name_id req.volume_id ≡ ok (zone, name))
        × (controller_unpublish_volume cloud req s ≡ unpublish_named cloud req zone name s)
  unfolding controller_unpublish_volume
  unpublish-named s h = elim (Bool-cases (req.volume_id == "")) [
    | inl a ↦ absurd (ground arith)
    | inr a ↦ elim (Bool-cases (req.node_id == "")) [
      | inl b ↦ absurd (ground arith)
      | inr b ↦ elim (Outcome-of (split_zone_name_id req.volume_id)) [
        | is_err e d ↦ absurd (ground arith)
        | is_panic d ↦ absurd (ground arith)
        | is_ok (zone, name) d ↦ (zone, name, d, rw (a, b, d) refl)
      ]
    ]
  ]

module _ (svc : ComputeService) (poll : Poll svc.State) (project : String) where
  -- The operation of a detachment from the node was seen done, and that was the last call.
  abbrev pub DetachDone : String → String → String → svc.State → Type 0
  DetachDone zone node name after =
      (op : Operation) × (t : svc.State) × ((svc.instances_detach_disk project zone node name t).0
        ≡ answer op)
      × SeenDone svc project zone op after

  Waited-DetachDone :
      (default_zone zone name : String) (req : ControllerUnpublishVolumeRequest) (after : svc.State)
      → IsPoll poll
      → Waited (cloud_provider svc poll project default_zone) req zone name after
      → DetachDone zone req.node_id name after
  unfolding Provider.detach_disk
  Waited-DetachDone default_zone zone name req after law (detach_op, t, u, asked, waited, ended) =
      elim (Answer-cases (svc.instances_detach_disk project zone req.node_id name t).0) [
        | inr (failure, e) ↦ absurd (ground arith)
        | inl (op, e) ↦ (
          op,
          t,
          e,
          waited-SeenDone svc poll project law detach_op op zone u after (ground arith) waited
              ended,
        )
      ]

-- Over the cloud provider, where the polling is as documented: when `ControllerUnpublishVolume`
-- answers a response and no error, its volume ID splits, its first GET answered a disk, and its
-- last call was either the GET of an instance that does not have that disk, or the GET of the
-- operation of a detachment of the volume from the node, with the status DONE.
pub unpublish-DetachDone :
    (svc : ComputeService) (poll : Poll svc.State) (project default_zone : String)
    (req : ControllerUnpublishVolumeRequest) (s : svc.State)
    → IsPoll poll
    → let cloud = cloud_provider svc poll project default_zone in
      let unpublished = controller_unpublish_volume cloud req s in
      unpublished.0 ≡ respond response
      → (zone name : String) × (split_zone_name_id req.volume_id ≡ ok (zone, name))
        × (disk : Disk) × ((cloud.get_disk_or_error zone name s).0 ≡ ok disk)
        × (FoundDetached cloud req zone disk unpublished.1
            ⊎ DetachDone svc poll project zone req.node_id name unpublished.1)
unpublish-DetachDone svc poll project default_zone req s law h =
    let cloud = cloud_provider svc poll project default_zone in
    let (zone, name, split, whole) = unpublish-named cloud req s h in
    let (disk, e, last) =
      unpublish_named-reached cloud req zone name s
        (subst (λ (p : Reply Response × svc.State). p.0 ≡ respond response) whole h) in
    (
      zone,
      name,
      split,
      disk,
      e,
      subst
          (λ (p : Reply Response × svc.State).
            FoundDetached cloud req zone disk p.1
            ⊎ DetachDone svc poll project zone req.node_id name p.1)
          (sym whole)
          (elim last [
            | inl found ↦ inl found
            | inr waited ↦
                inr (Waited-DetachDone svc poll project default_zone zone name req _ law waited)
          ]),
    )
