-- ===== src/Controller/Service/Refines.antt =====
-- The controller over the fake cloud does what the service promises.
use compute_persistent_disk.Prelude.{
  String, Bool, true, false, ◌≡◌, refl, sym, ap, ◌∙◌, subst, inl, inr, Option, none, some, List, [],
  ◌∷◌, arith, ◌==◌, is_empty, Option-cases, Bool-cases,
}
use compute_persistent_disk.Go.Error.{Err, already_exists, is_ok, is_err, is_panic, Outcome-of}
use compute_persistent_disk.Go.Dict.{lookup}
use compute_persistent_disk.Csi.{CreateVolumeRequest, DeleteVolumeRequest}
use compute_persistent_disk.Utils.{split_zone_name_id}
use compute_persistent_disk.Cloud.{Disk}
use compute_persistent_disk.Cloud.Fake
use compute_persistent_disk.Cloud.Fake.{FakeCloud, fake_cloud}
use compute_persistent_disk.Cloud.Fake.Changes.{IsWellFormed}
use compute_persistent_disk.Controller.Create.{
  create_volume, provision, apply_parameters, get_required_bytes, get_limit_bytes,
}
use compute_persistent_disk.Controller.Delete.{delete_volume, delete_named}
use compute_persistent_disk.Controller.Publish.{
  controller_publish_volume, controller_unpublish_volume,
}
use compute_persistent_disk.Controller.Session.{
  Rpc, create, delete, publish, unpublish, step, Reach-IsWellFormed, start, after,
  validate_existing-exists,
}
use compute_persistent_disk.Go.Strings.{split}
use compute_persistent_disk.Controller.Session.Volumes.{new_disk}
use compute_persistent_disk.Controller.Service.{
  update, Volumes, Verdict, accepted, verdict_of, promise, serves, create_at, create_as,
  code_of_error,
}
use compute_persistent_disk.Controller.Service.View.{
  view, view-insert, view-erase, pair_path, volume_of_disk, volume_in,
}
use compute_persistent_disk.Controller.Service.Publishing.{seen, publish-seen, unpublish-seen}

-- The check of an existing disk by `GetAndValidateExistingDisk`.
abbrev check : Disk → String → CreateVolumeRequest → Bool × Option Err
check d disk_type req =
    Fake.validate_existing d disk_type (get_required_bytes req.capacity_range)
      (get_limit_bytes req.capacity_range)

module _ (d : Disk) (disk_type : String) (req : CreateVolumeRequest) where
  check-serves :
      (check d disk_type req).1 ≡ none
      → serves (volume_of_disk d) disk_type req.capacity_range ≡ true
  unfolding Fake.validate_existing
  check-serves h = ground arith

  check-code :
      (failure : Err)
      → (check d disk_type req).1 ≡ some failure
      → (serves (volume_of_disk d) disk_type req.capacity_range ≡ false)
        × (code_of_error failure ≡ some already_exists)
  unfolding Fake.validate_existing
  check-code failure h = ground arith

empty_kind : Fake.last_component "" ≡ ""
unfolding Fake.last_component split
empty_kind = refl

module _ (req : CreateVolumeRequest) (disk_type zone : String) (c : FakeCloud) where
  provision-new :
      lookup req.name c.disks ≡ none
      → seen (provision fake_cloud req disk_type zone c) ≡ create_at req disk_type none (view c)
  unfolding provision Fake.get_and_validate_existing_disk Fake.insert_disk
  provision-new e =
      rw e (pair_path refl (view-insert c req.name (new_disk req)))
      ∙ ap
          (λ kind.
            create_as req.name (record { size_gb = (new_disk req).size_gb; kind = kind }) (view c))
          empty_kind

  provision-old :
      (d : Disk)
      → lookup req.name c.disks ≡ some d
      → seen (provision fake_cloud req disk_type zone c)
        ≡ create_at req disk_type (some (volume_of_disk d)) (view c)
  unfolding provision Fake.get_and_validate_existing_disk
  provision-old d e =
      let there =
        validate_existing-exists d disk_type (get_required_bytes req.capacity_range)
          (get_limit_bytes req.capacity_range) in
      elim (Option-cases (check d disk_type req).1) [
        | inl h ↦ rw (e, h, there, check-serves d disk_type req h) refl
        | inr (failure, h) ↦
            let (unfit, code) = check-code d disk_type req failure h in rw (e, h, unfit, code) refl
      ]

  provision-seen :
      seen (provision fake_cloud req disk_type zone c)
      ≡ create_at req disk_type ((view c).volume req.name) (view c)
  provision-seen = elim (Option-cases (lookup req.name c.disks)) [
    | inl e ↦ provision-new e ∙ ap (λ o. create_at req disk_type (volume_in o) (view c)) (sym e)
    | inr (d, e) ↦
        provision-old d e ∙ ap (λ o. create_at req disk_type (volume_in o) (view c)) (sym e)
  ]

delete_named-seen :
    (zone name : String) (c : FakeCloud)
    → seen (delete_named fake_cloud zone name c)
      ≡ (accepted, record (view c) { volume = update (view c).volume name none })
unfolding delete_named Fake.delete_disk
delete_named-seen zone name c = pair_path refl (view-erase c name)

create-seen :
    (c : FakeCloud) (req : CreateVolumeRequest)
    → seen (create_volume fake_cloud req c) ≡ promise (create req) (view c)
unfolding create_volume
create-seen c req = elim (Bool-cases (req.name == "")) [
  | inl a ↦ rw a refl
  | inr a ↦ elim (Bool-cases (is_empty req.volume_capabilities)) [
    | inl b ↦ rw (a, b) refl
    | inr b ↦ elim (Outcome-of (apply_parameters req.parameters "pd-standard" c.zone)) [
      | is_err e h ↦ rw (a, b, h) refl
      | is_panic h ↦ rw (a, b, h) refl
      | is_ok (disk_type, zone) h ↦ rw (a, b, h) (provision-seen req disk_type zone c)
    ]
  ]
]

delete-seen :
    (c : FakeCloud) (req : DeleteVolumeRequest)
    → seen (delete_volume fake_cloud req c) ≡ promise (delete req) (view c)
unfolding delete_volume
delete-seen c req = elim (Bool-cases (req.volume_id == "")) [
  | inl a ↦ rw a refl
  | inr a ↦ elim (Outcome-of (split_zone_name_id req.volume_id)) [
    | is_err e h ↦ rw (a, h) refl
    | is_panic h ↦ rw (a, h) refl
    | is_ok (zone, name) h ↦ rw (a, h) (delete_named-seen zone name c)
  ]
]

-- What the client learns from the reply to an RPC.
abbrev pub verdict : Rpc → FakeCloud → Verdict
verdict (create req) c = verdict_of (create_volume fake_cloud req c).0
verdict (delete req) c = verdict_of (delete_volume fake_cloud req c).0
verdict (publish req) c = verdict_of (controller_publish_volume fake_cloud req c).0
verdict (unpublish req) c = verdict_of (controller_unpublish_volume fake_cloud req c).0

-- Each RPC on a fake cloud that is well-formed gives the verdict that is promised for its view, and
-- leaves a cloud whose view is the one promised.
pub step_refines :
    (r : Rpc) (c : FakeCloud)
    → IsWellFormed c
    → ◌≡◌ {A = Verdict × Volumes} (verdict r c, view (step r c)) (promise r (view c))
step_refines (create req) c w = create-seen c req
step_refines (delete req) c w = delete-seen c req
step_refines (publish req) c w = publish-seen c req w
step_refines (unpublish req) c w = unpublish-seen c req w

-- A sequence of RPCs, on the fake cloud and as promised.
unfoldable pub run : List Rpc → FakeCloud → List Verdict × FakeCloud
run [] c = ([], c)
run (r ∷ rs) c = let (vs, last) = run rs (step r c) in (verdict r c ∷ vs, last)

unfoldable pub replay : List Rpc → Volumes → List Verdict × Volumes
replay [] v = ([], v)
replay (r ∷ rs) v =
    let (first, v') = promise r v in let (vs, last) = replay rs v' in (first ∷ vs, last)

-- From a fake cloud that is well-formed, any sequence of the controller's RPCs, whatever the
-- requests, gives one by one the verdicts that the abstract service promises for the volumes that
-- the cloud stands for, and leaves a cloud that stands for the volumes that the service promises:
-- volumes by name with their size and type, and the mode in which a node has a volume. A request
-- to create a new volume is not refused for its limit, be it below the required bytes or below
-- the default size.
pub run_refines :
    (rs : List Rpc) (c : FakeCloud)
    → IsWellFormed c
    → ((run rs c).0 ≡ (replay rs (view c)).0) × (view (run rs c).1 ≡ (replay rs (view c)).1)
unfolding run replay
run_refines [] c w = (refl, refl)
run_refines (r ∷ rs) c w =
    let (verdicts, last) = run_refines rs (step r c) (Reach-IsWellFormed (after r start) w) in
    subst
      (λ (p : Verdict × Volumes).
        ((verdict r c ∷ (run rs (step r c)).0) ≡ (p.0 ∷ (replay rs p.1).0))
        × (view (run rs (step r c)).1 ≡ (replay rs p.1).1))
      (step_refines r c w) (ap (λ vs. verdict r c ∷ vs) verdicts, last)
