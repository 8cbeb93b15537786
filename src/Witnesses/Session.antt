-- ===== src/Witnesses/Session.antt =====
-- RPCs of the controller on a fake cloud with one node and one volume.
use compute_persistent_disk.Prelude.{
  String, ◌≡◌, ◌≢◌, refl, true, false, none, some, List, [], ◌∷◌, arith, ◌==◌, eq_iff,
  if◌then◌else◌,
}
use compute_persistent_disk.Prelude.Int.{pos}
use compute_persistent_disk.Go.Error.{already_exists, code_of, ok, panicked, respond}
use compute_persistent_disk.Go.Dict.{lookup}
use compute_persistent_disk.Csi.{
  mount, VolumeCapability, single_node_writer, CreateVolumeRequest, ControllerPublishVolumeRequest,
  ControllerUnpublishVolumeRequest, response,
}
use compute_persistent_disk.Utils.{split_zone_name_id, combine_volume_id}
use compute_persistent_disk.Cloud.{Disk, Instance, AttachedDisk}
use compute_persistent_disk.Cloud.Fake.{FakeCloud, fake_cloud, set_disks}
use compute_persistent_disk.Cloud.Fake.Devices.{uses}
use compute_persistent_disk.Cloud.Fake.Changes.{IsWellFormed}
use compute_persistent_disk.Controller.Create.{create_volume, apply_parameters}
use compute_persistent_disk.Controller.Delete.{delete_volume}
use compute_persistent_disk.Controller.Publish.{
  controller_publish_volume, controller_unpublish_volume,
}
use compute_persistent_disk.Controller.Service.View.{view}
use compute_persistent_disk.Controller.Service.Refines.{run, replay, run_refines}
use compute_persistent_disk.Controller.Session.{
  create, publish, start, after, step, Reach-IsWellFormed,
}
use compute_persistent_disk.Controller.Session.Lifecycle.{
  IsPublishFor, IsUnpublishFor, with_attached, publish-attaches, publish-publish, publish-conflict,
}
use compute_persistent_disk.Controller.Session.Detach.{unpublish-publish, unpublish-ne-panicked}
use compute_persistent_disk.Controller.Session.Volumes.{
  with_disk, volume_of, create_volume_again, delete_volume-slash, delete-create,
}

abbrev capability : VolumeCapability
capability = record {
  access_type = some (mount "ext4" []);
  access_mode = some (record { mode = single_node_writer });
}

abbrev node : Instance
node = record { disks = [] }

abbrev cloud : FakeCloud
cloud = record { project = "p"; zone = "z"; disks = []; instances = ("n", node) ∷ [] }

abbrev disk : Disk
disk = record { name = "v"; size_gb = pos 5; description = ""; type = ""; kind = "" }

abbrev stocked : FakeCloud
stocked = record cloud { disks = ("v", disk) ∷ [] }

abbrev create_request : CreateVolumeRequest
create_request = record {
  name = "v";
  capacity_range = none;
  volume_capabilities = capability ∷ [];
  parameters = ("type", "pd-ssd") ∷ [];
}

abbrev publish_request : ControllerPublishVolumeRequest
publish_request = record {
  volume_id = "z/v";
  node_id = "n";
  readonly = false;
  volume_capability = some capability;
}

abbrev unpublish_request : ControllerUnpublishVolumeRequest
unpublish_request = record { volume_id = "z/v"; node_id = "n" }

parsed : split_zone_name_id "z/v" ≡ ok ("z", "v")
unfolding split_zone_name_id
parsed = refl

publish_request-IsPublishFor : IsPublishFor publish_request "z" "v"
publish_request-IsPublishFor = (parsed, (λ h. cc), refl)

unpublish_request-IsUnpublishFor : IsUnpublishFor unpublish_request "z" "v"
unpublish_request-IsUnpublishFor = (parsed, (λ h. cc))

found_disk : lookup "v" stocked.disks ≡ some disk
unfolding lookup
found_disk = refl

found_node : lookup "n" stocked.instances ≡ some node
unfolding lookup
found_node = refl

stocked-IsWellFormed : IsWellFormed stocked
unfolding lookup
stocked-IsWellFormed = record {
  keyed = λ k d h. ground (arith, eq_iff "v" k);
  distinct = λ n x i h. ground (arith, eq_iff "n" n);
}

Reach-IsWellFormed_example : IsWellFormed (step (create create_request) stocked)
Reach-IsWellFormed_example =
    Reach-IsWellFormed (after (create create_request) start) stocked-IsWellFormed

run_refines_example :
    let session = create create_request ∷ publish publish_request ∷ [] in
    ((run session stocked).0 ≡ (replay session (view stocked)).0)
    × (view (run session stocked).1 ≡ (replay session (view stocked)).1)
run_refines_example =
    run_refines (create create_request ∷ publish publish_request ∷ []) stocked stocked-IsWellFormed

publish-attaches_example :
    controller_publish_volume fake_cloud publish_request stocked
    ≡ (respond response, with_attached stocked publish_request disk node)
publish-attaches_example =
    publish-attaches stocked publish_request "z" "v" disk node publish_request-IsPublishFor
      found_disk found_node refl

abbrev publish_readonly : ControllerPublishVolumeRequest
publish_readonly = record publish_request { readonly = true }

publish_readonly-IsPublishFor : IsPublishFor publish_readonly "z" "v"
publish_readonly-IsPublishFor = (parsed, (λ h. cc), refl)

publish-publish_example :
    controller_publish_volume fake_cloud publish_request
      (with_attached stocked publish_request disk node)
    ≡ (respond response, with_attached stocked publish_request disk node)
publish-publish_example =
    publish-publish stocked publish_request "z" "v" disk node publish_request-IsPublishFor
      found_disk found_node refl publish_request publish_request-IsPublishFor refl refl

publish-conflict_example :
    (code_of
        (controller_publish_volume fake_cloud publish_readonly
          (with_attached stocked publish_request disk node)).0
      ≡ some already_exists)
    × ((controller_publish_volume fake_cloud publish_readonly
          (with_attached stocked publish_request disk node)).1
        ≡ with_attached stocked publish_request disk node)
publish-conflict_example =
    publish-conflict stocked publish_request "z" "v" disk node publish_request-IsPublishFor
      found_disk found_node refl publish_readonly publish_readonly-IsPublishFor refl (λ h. cc)

unpublish-publish_example :
    (rest : List AttachedDisk) × (controller_unpublish_volume fake_cloud unpublish_request
        (with_attached stocked publish_request disk node)
      ≡ (
        respond response,
        set_disks (with_attached stocked publish_request disk node) unpublish_request.node_id rest,
      ))
    × ((x : String) → uses x rest ≡ uses x node.disks)
unpublish-publish_example =
    unpublish-publish stocked publish_request "z" "v" disk node unpublish_request
      publish_request-IsPublishFor found_disk found_node refl unpublish_request-IsUnpublishFor refl
      refl

unpublish-ne-panicked_example :
    (controller_unpublish_volume fake_cloud unpublish_request stocked).0 ≢ panicked
unpublish-ne-panicked_example = unpublish-ne-panicked stocked unpublish_request stocked-IsWellFormed

parameters_applied :
    apply_parameters create_request.parameters "pd-standard" cloud.zone ≡ ok ("pd-ssd", "z")
unfolding apply_parameters
parameters_applied = refl

no_disk : lookup create_request.name cloud.disks ≡ none
unfolding lookup
no_disk = refl

create_volume_again_example :
    create_volume fake_cloud create_request (with_disk cloud create_request)
    ≡ (respond (volume_of create_request "z"), with_disk cloud create_request)
create_volume_again_example =
    create_volume_again cloud create_request "pd-ssd" "z" (λ h. cc) refl parameters_applied no_disk
      refl (λ h. cc)

delete_volume-slash_example :
    delete_volume fake_cloud (record { volume_id = combine_volume_id "z" "a/b" }) stocked
    ≡ (respond response, stocked)
delete_volume-slash_example =
    delete_volume-slash fake_cloud stocked "z" "a/b" (refl, tt) (λ h. cc (h.1.0))

delete-create_example :
    let answered =
      delete_volume fake_cloud (record { volume_id = combine_volume_id "z" "v" }) stocked in
    (answered.0 ≡ respond response)
    × (lookup "v" answered.1.disks ≡ (if "v" == "v" then none else lookup "v" stocked.disks))
    × (answered.1.instances ≡ stocked.instances)
delete-create_example = delete-create stocked "z" "v" "v" (refl, tt) (refl, tt)
