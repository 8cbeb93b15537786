-- ===== src/Cloud/Provider/Wait.antt =====
-- `WaitForOp` of the cloud provider.
use compute_persistent_disk.Prelude.{
  String, Bool, true, ◌≡◌, ap, subst, Option, none, some, arith, eq_iff, ◌*◌, inl, inr,
}
use compute_persistent_disk.Go.Error.{Answer-cases, Err, ok, answer}
use compute_persistent_disk.Cloud.{Operation}
use compute_persistent_disk.Cloud.Poll.{Poll, second, IsPoll, met_last}
use compute_persistent_disk.Cloud.Provider.{ComputeService, wait_for_op, poll_condition}

module _ (svc : ComputeService) (poll : Poll svc.State) (project : String) where
  seen_done :
      (op : Operation) (zone : String) (u : svc.State) {t : svc.State}
      → poll_condition svc poll project op zone u ≡ ((true, none), t)
      → (seen : Operation) × (svc.zone_operations_get project zone op.name u ≡ (answer seen, t))
        × (seen.status ≡ "DONE")
  unfolding poll_condition
  seen_done op zone u h = elim (Answer-cases (svc.zone_operations_get project zone op.name u).0) [
    | inl (seen, e) ↦ (
      seen,
      λ i. (e i, (h i).1),
      ground
          (arith, eq_iff seen.status "DONE", ap (λ (r : (Bool × Option Err) × svc.State). r.0.0) h),
    )
    | inr (refusal, e) ↦
        absurd (ground (arith, ap (λ (r : (Bool × Option Err) × svc.State). r.0.1) h))
  ]

module _ (svc : ComputeService) (project : String) where
  -- In the state after which things are as given, the last GET of the operation answered DONE.
  abbrev pub SeenDone : String → Operation → svc.State → Type 0
  SeenDone zone op after =
      (seen : Operation) × (u : svc.State) × (svc.zone_operations_get project zone op.name u
        ≡ (answer seen, after))
      × (seen.status ≡ "DONE")

module _ (svc : ComputeService) (poll : Poll svc.State) (project : String) (law : IsPoll poll) where
  -- Where the poll is as documented, a wait for an operation that succeeds has seen it done: the
  -- last GET of it, in the state after which the wait returns, answered the status DONE.
  pub wait_for_op_done :
      (op : Operation) (zone : String) (s : svc.State)
      → (wait_for_op svc poll project (some op) zone s).0 ≡ ok tt
      → (u : svc.State) × (seen : Operation) × (svc.zone_operations_get project zone op.name u
          ≡ (answer seen, (wait_for_op svc poll project (some op) zone s).1))
        × (seen.status ≡ "DONE")
  unfolding wait_for_op
  wait_for_op_done op zone s h =
      let condition = poll_condition svc poll project op zone in
      let ended = law (3 * second) (5 * 60 * second) condition s in
      let (u, last) = met_last ended (ground arith) in
      let (seen, got, is_done) = seen_done svc poll project op zone u last in
      (u, seen, got, is_done)

  -- The same of an operation that a call has answered.
  pub waited-SeenDone :
      (started : Option Operation) (op : Operation) (zone : String) (s after : svc.State)
      → started ≡ some op
      → (wait_for_op svc poll project started zone s).0 ≡ ok tt
      → (wait_for_op svc poll project started zone s).1 ≡ after
      → SeenDone svc project zone op after
  waited-SeenDone started op zone s after made waited ended =
      let (u, seen, got, is_done) =
        wait_for_op_done op zone s
          (subst (λ o. (wait_for_op svc poll project o zone s).0 ≡ ok tt) made waited) in
      (
        seen,
        u,
        subst (λ w. svc.zone_operations_get project zone op.name u ≡ (answer seen, w))
            (subst (λ o. (wait_for_op svc poll project o zone s).1 ≡ after) made ended) got,
        is_done,
      )
