-- ===== src/Remote/Kept/Actions.antt =====
-- What the remote runner does on a host and with the archive keeps its variables.
use compute_persistent_disk.Prelude.{String, Bool, List, [], ◌∷◌, Option, none, some}
use compute_persistent_disk.Go.Error.{Err, Answer, answer, refused}
use compute_persistent_disk.Remote.{Flags, Machine, World}
use compute_persistent_disk.Remote.Ssh.{run_ssh_command, ssh, ssh_no_sudo}
use compute_persistent_disk.Remote.Archive.{
  archive_of, create_test_archive, copy_bin, copy_bins, setup_test_package, run_test,
  init_e2e_remote, or_unbuilt, none_or_unbuilt,
}
use compute_persistent_disk.Remote.Artifacts.{scp, if_listed, get_test_artifacts, write_log}
use compute_persistent_disk.Remote.Workspace.{get_timestamp, new_workspace_dir}
use compute_persistent_disk.Remote.Run.{
  unless, run_tests, run_extracted, run_copied, run_in, run_remote,
}
use compute_persistent_disk.Remote.Kept.{Keeps, keeps, same-Kept, keeping}

unless-Keeps :
    {S : Type 0} {name : String} (f : Err → String → Err) (ended : String × Option Err)
    → Keeps {S = S} name (unless f ended)
unless-Keeps {name} f (output, none) = keeps (same-Kept name)
unless-Keeps {name} f (output, some e) = keeps (same-Kept name)

or_unbuilt-Keeps :
    {S A : Type 0} {name : String} (f : Err → Err) (a : Answer A)
    → Keeps {S = S} name (or_unbuilt f a)
or_unbuilt-Keeps {name} f (answer a) = keeps (same-Kept name)
or_unbuilt-Keeps {name} f (refused e) = keeps (same-Kept name)

none_or_unbuilt-Keeps :
    {S : Type 0} {name : String} (f : Err → Err) (e : Option Err)
    → Keeps {S = S} name (none_or_unbuilt f e)
none_or_unbuilt-Keeps {name} f none = keeps (same-Kept name)
none_or_unbuilt-Keeps {name} f (some e) = keeps (same-Kept name)

module _ (name : String) (machine : Machine) (flags : Flags) where
  scp-Keeps : (args : World machine.State → List String) → Keeps name (scp machine flags args)
  unfolding run_ssh_command
  scp-Keeps args = keeps (same-Kept name)

  pub ssh-Keeps : (host : String) (cmd : List String) → Keeps name (ssh flags machine host cmd)
  unfolding ssh run_ssh_command
  ssh-Keeps host cmd = keeps (same-Kept name)

  pub ssh_no_sudo-Keeps :
      (host : String) (cmd : List String) → Keeps name (ssh_no_sudo flags machine host cmd)
  unfolding ssh_no_sudo run_ssh_command
  ssh_no_sudo-Keeps host cmd = keeps (same-Kept name)

  if_listed-Keeps :
      (e : Option Err) (args : World machine.State → List String)
      → Keeps name (if_listed machine flags e args)
  unfolding run_ssh_command
  if_listed-Keeps none args = search (keeping, scp-Keeps)
  if_listed-Keeps (some e) args = keeps (same-Kept name)

  get_test_artifacts-Keeps :
      (host test_dir : String) → Keeps name (get_test_artifacts machine flags host test_dir)
  unfolding get_test_artifacts
  get_test_artifacts-Keeps host test_dir =
      search (keeping, scp-Keeps, ssh-Keeps, if_listed-Keeps) depth 30

  pub write_log-Keeps :
      (host filename content : String) → Keeps name (write_log machine flags host filename content)
  unfolding write_log
  write_log-Keeps host filename content = search keeping depth 30

  new_workspace_dir-Keeps : Keeps name (new_workspace_dir machine)
  unfolding new_workspace_dir get_timestamp
  new_workspace_dir-Keeps = keeps (same-Kept name)

  copy_bin-Keeps : (dir tardir bin : String) → Keeps name (copy_bin machine dir tardir bin)
  unfolding copy_bin
  copy_bin-Keeps dir tardir bin = search keeping depth 30

  copy_bins-Keeps :
      (dir tardir : String) (bins : List String) → Keeps name (copy_bins machine dir tardir bins)
  unfolding copy_bins
  copy_bins-Keeps dir tardir [] = keeps (same-Kept name)
  copy_bins-Keeps dir tardir (bin ∷ bins) =
      search (keeping, copy_bin-Keeps, copy_bins-Keeps dir tardir bins) depth 30

  setup_test_package-Keeps : (tardir : String) → Keeps name (setup_test_package machine tardir)
  unfolding setup_test_package
  setup_test_package-Keeps tardir = search (keeping, copy_bins-Keeps) depth 30

  run_test-Keeps : (host workspace : String) → Keeps name (run_test machine flags host workspace)
  unfolding run_test
  run_test-Keeps host workspace = ssh-Keeps host _

  archive_of-Keeps :
      (tardir : String) → Keeps name (archive_of machine (init_e2e_remote machine flags) tardir)
  unfolding archive_of init_e2e_remote
  archive_of-Keeps tardir =
      search (keeping, setup_test_package-Keeps, or_unbuilt-Keeps, none_or_unbuilt-Keeps) depth 30

  pub create_test_archive-Keeps :
      Keeps name (create_test_archive machine (init_e2e_remote machine flags))
  unfolding create_test_archive
  create_test_archive-Keeps = search (keeping, archive_of-Keeps, or_unbuilt-Keeps) depth 30

  module _ (new_aggregate : List Err → Option Err) where
    run_tests-Keeps :
        (workspace result_dir host test_args ginkgo_args : String)
        → Keeps name (
            run_tests machine flags new_aggregate
              (init_e2e_remote machine flags)
              workspace
              result_dir
              host
              test_args
              ginkgo_args)
    unfolding run_tests init_e2e_remote
    run_tests-Keeps workspace result_dir host test_args ginkgo_args =
        search (keeping, run_test-Keeps, get_test_artifacts-Keeps) depth 30

    run_extracted-Keeps :
        (workspace host test_args ginkgo_args : String)
        → Keeps name (
            run_extracted machine flags new_aggregate
              (init_e2e_remote machine flags)
              workspace
              host
              test_args
              ginkgo_args)
    unfolding run_extracted
    run_extracted-Keeps workspace host test_args ginkgo_args =
        search (keeping, ssh_no_sudo-Keeps, unless-Keeps, run_tests-Keeps) depth 30

    run_copied-Keeps :
        (workspace host test_args ginkgo_args : String)
        → Keeps name (
            run_copied machine flags new_aggregate
              (init_e2e_remote machine flags)
              workspace
              host
              test_args
              ginkgo_args)
    unfolding run_copied
    run_copied-Keeps workspace host test_args ginkgo_args =
        search (keeping, ssh_no_sudo-Keeps, unless-Keeps, run_extracted-Keeps) depth 30

    run_in-Keeps :
        (workspace archive host test_args ginkgo_args : String)
        → Keeps name (
            run_in machine flags new_aggregate
              (init_e2e_remote machine flags)
              workspace
              archive
              host
              test_args
              ginkgo_args)
    unfolding run_in
    run_in-Keeps workspace archive host test_args ginkgo_args =
        search (keeping, scp-Keeps, unless-Keeps, run_copied-Keeps) depth 30

    pub run_remote-Keeps :
        (archive host : String) (cleanup : Bool) (test_args ginkgo_args : String)
        → Keeps name (
            run_remote machine flags new_aggregate
              (init_e2e_remote machine flags)
              archive
              host
              cleanup
              test_args
              ginkgo_args)
    unfolding run_remote
    run_remote-Keeps archive host cleanup test_args ginkgo_args =
        search
          (
            keeping, new_workspace_dir-Keeps, ssh_no_sudo-Keeps, ssh-Keeps, unless-Keeps,
            run_in-Keeps,
          )
          depth 30
