-- ===== src/Remote/Archive.antt =====
-- The archive with the tests: `CreateTestArchive` of test/remote/remote/remote.go and the suite of
-- e2e.go.
use compute_persistent_disk.Prelude.{String, ◌<>◌, Option, none, some, List, [], ◌∷◌}
use compute_persistent_disk.Go.Path.{join_path}
use compute_persistent_disk.Go.Error.{Err, errorf, end, str, error, Answer, answer, refused}
use compute_persistent_disk.Go.Handler.{
  on_option, Action, Body, next, ◌>>=◌, ◌>>◌, give, give_some, call, run,
}
use compute_persistent_disk.Remote.{Flags, Machine, World, TestSuite, on, deferring}
use compute_persistent_disk.Remote.Ssh.{get_ssh_command, ssh}

abbrev pub archive_name : String
archive_name = "e2e_gce_pd_test.tar.gz"

-- A path and an error that is nil, or no path and an error.
abbrev built : String → String × Option Err
built path = (path, none)

abbrev unbuilt : Err → String × Option Err
unbuilt e = ("", some e)

-- Goes on, or returns the error.
abbrev pub or_unbuilt : {S A : Type 0} → (Err → Err) → Answer A → Body S (String × Option Err) A
or_unbuilt f (answer a) s = (next a, s)
or_unbuilt f (refused e) s = give (unbuilt (f e)) s

abbrev pub none_or_unbuilt :
    {S : Type 0} → (Err → Err) → Option Err → Body S (String × Option Err) (Unit {0})
none_or_unbuilt f none s = (next tt, s)
none_or_unbuilt f (some e) s = give (unbuilt (f e)) s

module _ (machine : Machine) where
  -- `CreateTestArchive` behind the making of the directory, which it removes in the end.
  unfoldable pub archive_of :
      TestSuite machine.State → String → Action (World machine.State) (String × Option Err)
  unfolding join_path
  archive_of suite tardir = deferring (on (machine.remove_all tardir)) (
      run do
        failure ← call (suite.setup_test_package tardir)
        none_or_unbuilt
            (λ e. errorf "failed to setup test package %q: %v" (str tardir (error e end))) failure
        (out, e) ←
            call (on (machine.output "tar" ("-zcvf" ∷ archive_name ∷ "-C" ∷ tardir ∷ "." ∷ [])))
        none_or_unbuilt (λ e. errorf "failed to build tar %v.  Output:\n%s" (error e (str out end)))
            e
        found ← call (on machine.getwd)
        dir ← or_unbuilt (λ e. errorf "failed to get working directory %v" (error e end)) found
        give (built (join_path dir archive_name)))

  unfoldable pub create_test_archive :
      TestSuite machine.State → Action (World machine.State) (String × Option Err)
  unfolding archive_of
  create_test_archive suite = run do
    made ← call (on (machine.temp_dir "" "gce-pd-e2e-archive"))
    tardir ← or_unbuilt (λ e. errorf "failed to create temporary directory %v" (error e end)) made
    call (archive_of suite tardir)

  -- The round of the loop of `SetupTestPackage` for a program.
  unfoldable pub copy_bin : String → String → String → Action (World machine.State) (Option Err)
  unfolding join_path
  copy_bin build_output_dir tardir bin = run do
    let source = join_path build_output_dir bin
    missing ← call (on (machine.stat source))
    give_some (elim missing [
      | none ↦ none
      | some e ↦ some (errorf "failed to locate test binary %s: %v" (str bin (error e end)))
    ])
    (out, e) ← call (on (machine.output "cp" (source ∷ join_path tardir bin ∷ [])))
    give (elim e [
      | none ↦ none
      | some e ↦ some (errorf "failed to copy %q: %v Output: %q" (str bin (error e (str out end))))
    ])

  unfoldable pub copy_bins :
      String → String → List String → Action (World machine.State) (Option Err)
  unfolding copy_bin
  copy_bins build_output_dir tardir [] = λ w. (none, w)
  copy_bins build_output_dir tardir (bin ∷ bins) = run do
    e ← call (copy_bin build_output_dir tardir bin)
    give_some e
    call (copy_bins build_output_dir tardir bins)

  -- `E2ERemote`
  unfoldable pub setup_test_package : String → Action (World machine.State) (Option Err)
  unfolding copy_bins join_path
  setup_test_package tardir = run do
    found ← call (on (machine.lookup_env "GOPATH"))
    on_option found
        (λ gopath. call (
          copy_bins
            (join_path gopath
              "src/github.com/GoogleCloudPlatform/compute-persistent-disk-csi-driver/bin")
            tardir ("gce-csi-driver" ∷ "gce-csi-driver-test" ∷ [])))
        (give (some (errorf "Could not find gopath" end)))

  module _ (flags : Flags) where
    unfoldable pub run_test : String → String → Action (World machine.State) (String × Option Err)
    unfolding get_ssh_command ssh
    run_test host workspace =
        let cmd = get_ssh_command " && " (("cd " <> workspace) ∷ "./gce-csi-driver-test" ∷ []) in
        ssh flags machine host ("sh" ∷ "-c" ∷ cmd ∷ [])

    -- `InitE2ERemote`
    unfoldable pub init_e2e_remote : TestSuite machine.State
    unfolding setup_test_package run_test
    init_e2e_remote = record {
      setup_test_package = setup_test_package;
      run_test = λ host workspace results test_args ginkgo_args timeout. run_test host workspace;
    }
