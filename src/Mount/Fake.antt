-- ===== src/Mount/Fake.antt =====
-- `FakeMounter` of pkg/mount-manager/fake-mounter.go: it keeps nothing and never fails.
use compute_persistent_disk.Prelude.{true, none, []}
use compute_persistent_disk.Go.Error.{answer}
use compute_persistent_disk.Mount.{Mounter}

abbrev pub fake_mounter : Mounter
fake_mounter = record {
  State = Unit {0};
  do_mount = λ source target fstype options s. (none, s);
  format_and_mount = λ source target fstype options s. (none, s);
  is_likely_not_mount_point = λ file s. ((true, none), s);
  unmount_volume = λ target_path s. (("TODO", none), s);
  get_disk_by_id_paths = λ pd_name partition. [];
  verify_device_path = λ device_paths s. (answer "TODO", s);
  mkdir_all = λ path perm s. (none, s);
  remove = λ name s. (none, s);
}
