-- ===== src/Controller/Create/Made.antt =====
-- `CreateVolume` over the cloud provider: what its success says of the cloud.
use compute_persistent_disk.Prelude.{
  String, Bool, Option, ◌≡◌, ◌⊎◌, refl, inl, inr, true, false, none, arith, ◌==◌, is_empty,
  Bool-cases, Option-cases,
}
use compute_persistent_disk.Go.Error.{
  Err, ok, answer, Answer-cases, respond, is_ok, is_err, is_panic, Outcome-of,
}
use compute_persistent_disk.Csi.{CreateVolumeRequest, CreateVolumeResponse}
use compute_persistent_disk.Utils.{combine_volume_id}
use compute_persistent_disk.Cloud.{Disk, Operation, GceCompute, is_gce_error}
use compute_persistent_disk.Cloud.Poll.{Poll, IsPoll}
use compute_persistent_disk.Cloud.Provider
use compute_persistent_disk.Cloud.Provider.{ComputeService, cloud_provider}
use compute_persistent_disk.Cloud.Provider.Wait.{SeenDone, waited-SeenDone}
use compute_persistent_disk.Controller.Create.{
  create_volume, provision, apply_parameters, get_required_bytes, get_limit_bytes,
  get_request_capacity, disk_size_gb,
}

abbrev pub answer_to : CreateVolumeRequest → String → CreateVolumeResponse
answer_to req zone = record {
  capacity_bytes = get_request_capacity req.capacity_range;
  id = combine_volume_id zone req.name;
}

module _ (cloud : GceCompute) (req : CreateVolumeRequest) (disk_type zone : String) where
  open cloud use {State}

  -- The last call validated an existing disk of the name, and found no fault.
  abbrev pub Validated : State → Type 0
  Validated after =
      (exists : Bool) × (u : State) × (cloud.get_and_validate_existing_disk zone req.name disk_type
          (get_required_bytes req.capacity_range) (get_limit_bytes req.capacity_range) u
        ≡ ((exists, none), after))

  -- The disk that is asked for.
  abbrev pub wanted : Disk
  wanted = record {
    name = req.name;
    size_gb = disk_size_gb (get_request_capacity req.capacity_range);
    description = "Disk created by GCE-PD CSI Driver";
    type = cloud.get_disk_type_uri zone disk_type;
    kind = "";
  }

  -- The last call waited for the operation of the insertion, and succeeded.
  abbrev pub Waited : State → Type 0
  Waited after =
      (insert_op : Option Operation) × (t u : State) × ((cloud.insert_disk zone wanted t).0
        ≡ ok insert_op)
      × ((cloud.wait_for_op insert_op zone u).0 ≡ ok tt)
      × ((cloud.wait_for_op insert_op zone u).1 ≡ after)

  abbrev validated : State → (Bool × Option Err) × State
  validated =
      cloud.get_and_validate_existing_disk zone req.name disk_type
        (get_required_bytes req.capacity_range) (get_limit_bytes req.capacity_range)

  module _ (resp : CreateVolumeResponse) (s : State)
      (h : (provision cloud req disk_type zone s).0 ≡ respond resp)
      (sound : (validated s).0.1 ≡ none) (absent : (validated s).0.0 ≡ false) where
    -- Where there was no disk at first.
    provision-inserts :
        (resp ≡ answer_to req zone)
        × (Validated (provision cloud req disk_type zone s).1
            ⊎ Waited (provision cloud req disk_type zone s).1)
    unfolding provision
    provision-inserts =
        let (inserted, u) = cloud.insert_disk zone wanted (validated s).1 in
        elim (Outcome-of inserted) [
          | is_panic a ↦ absurd (ground arith)
          | is_err e a ↦ elim (Bool-cases (is_gce_error e "alreadyExists")) [
            | inr b ↦ absurd (ground arith)
            | inl b ↦ elim (Option-cases (validated u).0.1) [
              | inr (failure, c) ↦ absurd (ground arith)
              | inl c ↦ (
                ground arith,
                inl (
                    rw (sound, absent, a, b, c)
                      ((validated u).0.0, u, (λ k. (((validated u).0.0, c k), (validated u).1)))),
              )
            ]
          ]
          | is_ok op a ↦
              let (waited, v) = cloud.wait_for_op op zone u in
              elim (Outcome-of waited) [
                | is_panic b ↦ absurd (ground arith)
                | is_ok _ b ↦ (
                  ground arith,
                  inr (rw (sound, absent, a, b) (op, (validated s).1, u, a, b, refl)),
                )
                | is_err e b ↦ elim (Bool-cases (is_gce_error e "alreadyExists")) [
                  | inr c ↦ absurd (ground arith)
                  | inl c ↦ elim (Option-cases (validated v).0.1) [
                    | inr (failure, d) ↦ absurd (ground arith)
                    | inl d ↦ (
                      ground arith,
                      inl (
                          rw (sound, absent, a, b, c, d)
                            (
                              (validated v).0.0,
                              v,
                              (λ k. (((validated v).0.0, d k), (validated v).1)),
                            )),
                    )
                  ]
                ]
              ]
        ]

  pub provision-reached :
      (resp : CreateVolumeResponse) (s : State)
      → (provision cloud req disk_type zone s).0 ≡ respond resp
      → (resp ≡ answer_to req zone)
        × (Validated (provision cloud req disk_type zone s).1
            ⊎ Waited (provision cloud req disk_type zone s).1)
  unfolding provision
  provision-reached resp s h = elim (Option-cases (validated s).0.1) [
    | inr (failure, a) ↦ absurd (ground arith)
    | inl a ↦ elim (Bool-cases (validated s).0.0) [
      | inl b ↦ (ground arith, inl (rw (a, b) (true, s, (λ k. ((b k, a k), (validated s).1)))))
      | inr b ↦ provision-inserts resp s h a b
    ]
  ]

-- The operation of an insertion of the disk was seen done, and that was the last call.
abbrev pub InsertDone : (svc : ComputeService) → String → String → Disk → svc.State → Type 0
InsertDone svc project zone asked after =
    (op : Operation) × (t : svc.State) × ((svc.disks_insert project zone asked t).0 ≡ answer op)
    × SeenDone svc project zone op after

-- Over the cloud provider, where the polling is as documented: when `CreateVolume` answers a
-- response and no error, its parameters give a disk type and a zone, the response has the
-- capacity of the request and the ID of the name in that zone, and the last call either was a
-- validation of the disk of the name that reports no error, or was the GET of the operation of an
-- insertion of the requested disk, with the status DONE.
pub create-InsertDone :
    (svc : ComputeService) (poll : Poll svc.State) (project default_zone : String)
    (req : CreateVolumeRequest) (resp : CreateVolumeResponse) (s : svc.State)
    → IsPoll poll
    → let cloud = cloud_provider svc poll project default_zone in
      let created = create_volume cloud req s in
      created.0 ≡ respond resp
      → (disk_type zone : String) × (apply_parameters req.parameters "pd-standard" default_zone
          ≡ ok (disk_type, zone))
        × (resp ≡ answer_to req zone)
        × (Validated cloud req disk_type zone created.1
            ⊎ InsertDone svc project zone (wanted cloud req disk_type zone) created.1)
unfolding create_volume Provider.insert_disk
create-InsertDone svc poll project default_zone req resp s law h =
    let cloud = cloud_provider svc poll project default_zone in
    elim (Bool-cases (req.name == "")) [
      | inl a ↦ absurd (ground arith)
      | inr a ↦ elim (Bool-cases (is_empty req.volume_capabilities)) [
        | inl b ↦ absurd (ground arith)
        | inr b ↦ elim (Outcome-of (apply_parameters req.parameters "pd-standard" default_zone)) [
          | is_panic c ↦ absurd (ground arith)
          | is_err failure c ↦ absurd (ground arith)
          | is_ok (disk_type, zone) c ↦
              let (said, last) = provision-reached cloud req disk_type zone resp s (ground arith) in
              (
                disk_type,
                zone,
                c,
                said,
                rw (a, b, c)
                    (elim last [
                      | inl found ↦ inl found
                      | inr (insert_op, t, u, asked, waited, ended) ↦
                          elim (Answer-cases
                            (svc.disks_insert project zone (wanted cloud req disk_type zone) t).0) [
                              | inr (failure, e) ↦ absurd (ground arith)
                              | inl (op, e) ↦ inr (
                                op,
                                t,
                                e,
                                waited-SeenDone svc poll project law insert_op op zone u _
                                    (ground arith) waited ended,
                              )
                            ]
                    ]),
              )
        ]
      ]
    ]
