-- ===== src/Remote/Ignored.antt =====
-- What of its flags the remote runner does not use.
use compute_persistent_disk.Prelude.{ℕ, String, List, Option, ◌≡◌, refl}
use compute_persistent_disk.Go.Error.{Err}
use compute_persistent_disk.Cloud.Poll.{Poll}
use compute_persistent_disk.Remote.{Flags, Machine, World}
use compute_persistent_disk.Remote.Ssh.{
  get_hostname_or_ip, ssh_args, run_ssh_command, ssh, ssh_no_sudo,
}
use compute_persistent_disk.Remote.Archive.{
  run_test, init_e2e_remote, create_test_archive, archive_of,
}
use compute_persistent_disk.Remote.Artifacts.{get_test_artifacts, write_log}
use compute_persistent_disk.Remote.Run.{run_tests, run_extracted, run_copied, run_in, run_remote}
use compute_persistent_disk.Remote.Hosts.{Instances}
use compute_persistent_disk.Remote.Provision.{
  insert_missing, instance_up, create_instance, delete_instance,
}
use compute_persistent_disk.Remote.Tests.{
  get_archive, run_archived, test_host, collect_serial_log, test_created, test,
}

-- With the suite of the driver, a run of the tests has the same result and leaves the same state
-- whatever list of tests is given, and whatever the flags for ginkgo, for the arguments of the
-- tests and for their timeout are.
pub test-ignores :
    (machine : Machine) (flags : Flags) (instances : Instances machine.State)
    (new_aggregate : List Err → Option Err) (poll : Poll (World machine.State))
    (tests others : List String) (ginkgo_flags test_args : String) (timeout : ℕ)
    (w : World machine.State)
    → let changed = record flags {
      ginkgo_flags = ginkgo_flags;
      test_args = test_args;
      test_timeout = timeout;
    } in
      test machine changed (init_e2e_remote machine changed) instances new_aggregate poll others w
      ≡ test machine flags (init_e2e_remote machine flags) instances new_aggregate poll tests w
unfolding test create_instance insert_missing instance_up delete_instance test_created test_host
    run_archived get_archive collect_serial_log write_log run_remote run_in run_copied run_extracted
    run_tests get_test_artifacts init_e2e_remote run_test ssh ssh_no_sudo run_ssh_command ssh_args
    get_hostname_or_ip create_test_archive archive_of
test-ignores machine flags instances new_aggregate poll tests others ginkgo_flags test_args timeout
      w =
    refl
