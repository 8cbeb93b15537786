-- ===== src/Controller/Delete/Gone.antt =====
-- `DeleteVolume` over the cloud provider: what its success says of the cloud.
use compute_persistent_disk.Prelude.{
  String, Option, ◌≡◌, ◌⊎◌, refl, inl, inr, true, arith, ◌==◌, Bool-cases,
}
use compute_persistent_disk.Go.Error.{
  Err, ok, err, answer, Answer-cases, respond, is_ok, is_err, is_panic, Outcome-of,
}
use compute_persistent_disk.Csi.{DeleteVolumeRequest, response}
use compute_persistent_disk.Utils.{split_zone_name_id}
use compute_persistent_disk.Cloud.{Operation, GceCompute, is_gce_error}
use compute_persistent_disk.Cloud.Poll.{Poll, IsPoll}
use compute_persistent_disk.Cloud.Provider
use compute_persistent_disk.Cloud.Provider.{ComputeService, cloud_provider}
use compute_persistent_disk.Cloud.Provider.Wait.{SeenDone, waited-SeenDone}
use compute_persistent_disk.Controller.Delete.{delete_volume, delete_named}

module _ (cloud : GceCompute) where
  open cloud use {State}

  -- The last call deleted a disk and was told that it does not exist.
  abbrev pub NotFound : String → String → State → Type 0
  NotFound zone name after =
      (failure : Err) × (u : State) × (cloud.delete_disk zone name u ≡ (err failure, after))
      × (is_gce_error failure "notFound" ≡ true)

  -- The last call waited for the operation of a deletion, and succeeded.
  abbrev pub Waited : String → String → State → Type 0
  Waited zone name after =
      (delete_op : Option Operation) × (t u : State) × ((cloud.delete_disk zone name t).0
        ≡ ok delete_op)
      × ((cloud.wait_for_op delete_op zone u).0 ≡ ok tt)
      × ((cloud.wait_for_op delete_op zone u).1 ≡ after)

  delete_named-reached :
      (zone name : String) (s : State)
      → (delete_named cloud zone name s).0 ≡ respond response
      → NotFound zone name (delete_named cloud zone name s).1
        ⊎ Waited zone name (delete_named cloud zone name s).1
  unfolding delete_named
  delete_named-reached zone name s h =
      let (answered, t) = cloud.delete_disk zone name s in
      elim (Outcome-of answered) [
        | is_panic a ↦ absurd (ground arith)
        | is_err failure a ↦
            elim (Bool-cases (is_gce_error failure "resourceInUseByAnotherResource")) [
              | inl b ↦ absurd (ground arith)
              | inr b ↦ elim (Bool-cases (is_gce_error failure "notFound")) [
                | inl c ↦ inl (rw (a, b, c) (failure, s, (λ k. (a k, t)), c))
                | inr c ↦ absurd (ground arith)
              ]
            ]
        | is_ok delete_op a ↦ elim (Outcome-of (cloud.wait_for_op delete_op zone t).0) [
          | is_err e b ↦ absurd (ground arith)
          | is_panic b ↦ absurd (ground arith)
          | is_ok _ b ↦ inr (rw (a, b) (delete_op, s, t, a, b, refl))
        ]
      ]

-- The operation of a deletion of the disk was seen done, and that was the last call.
abbrev pub DeleteDone : (svc : ComputeService) → String → String → String → svc.State → Type 0
DeleteDone svc project zone name after =
    (op : Operation) × (t : svc.State) × ((svc.disks_delete project zone name t).0 ≡ answer op)
    × SeenDone svc project zone op after

-- Over the cloud provider, where the polling is as documented: when `DeleteVolume` answers a
-- response and no error, either the volume ID does not split and the state is as it was, or the
-- last call was told that the disk does not exist, or it was the GET of the operation of its
-- deletion, with the status DONE.
pub delete-DeleteDone :
    (svc : ComputeService) (poll : Poll svc.State) (project default_zone : String)
    (req : DeleteVolumeRequest) (s : svc.State)
    → IsPoll poll
    → let cloud = cloud_provider svc poll project default_zone in
      let deleted = delete_volume cloud req s in
      deleted.0 ≡ respond response
      → ((failure : Err) × (split_zone_name_id req.volume_id ≡ err failure) × (deleted.1 ≡ s))
        ⊎ ((zone name : String) × (split_zone_name_id req.volume_id ≡ ok (zone, name))
            × (NotFound cloud zone name deleted.1 ⊎ DeleteDone svc project zone name deleted.1))
unfolding delete_volume Provider.delete_disk
delete-DeleteDone svc poll project default_zone req s law h =
    let cloud = cloud_provider svc poll project default_zone in
    elim (Bool-cases (req.volume_id == "")) [
      | inl a ↦ absurd (ground arith)
      | inr a ↦ elim (Outcome-of (split_zone_name_id req.volume_id)) [
        | is_panic b ↦ absurd (ground arith)
        | is_err failure b ↦ inl (failure, b, rw (a, b) refl)
        | is_ok (zone, name) b ↦ inr (
          zone,
          name,
          b,
          rw (a, b)
              (elim (delete_named-reached cloud zone name s (ground arith)) [
                | inl gone ↦ inl gone
                | inr (delete_op, t, u, asked, waited, ended) ↦
                    elim (Answer-cases (svc.disks_delete project zone name t).0) [
                      | inr (failure, e) ↦ absurd (ground arith)
                      | inl (op, e) ↦ inr (
                        op,
                        t,
                        e,
                        waited-SeenDone svc poll project law delete_op op zone u _ (ground arith)
                            waited ended,
                      )
                    ]
              ]),
        )
      ]
    ]
