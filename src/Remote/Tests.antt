-- ===== src/Remote/Tests.antt =====
-- The run of the tests on an instance: what test/remote/run_remote/run_remote.go makes of it.
use compute_persistent_disk.Prelude.{
  ℕ, String, Bool, false, not, ◌&&◌, Option, none, some, List, [], ◌∷◌, if◌then◌else◌,
}
use compute_persistent_disk.Go.Error.{Err, errorf, end, str, error}
use compute_persistent_disk.Go.Handler.{
  on_answer, on_option, Action, ◌>>=◌, ◌>>◌, give, give_if, call, drop, run,
}
use compute_persistent_disk.Cloud.Poll.{Poll}
use compute_persistent_disk.Remote.{Flags, Machine, World, TestSuite, on, deferring}
use compute_persistent_disk.Remote.Archive.{create_test_archive}
use compute_persistent_disk.Remote.Run.{run_remote}
use compute_persistent_disk.Remote.Artifacts.{write_log}
use compute_persistent_disk.Remote.Hosts.{
  Instances, TestResult, is_running, note_external_ip, ginkgo_flags_of,
}
use compute_persistent_disk.Remote.Provision.{create_instance, delete_instance}

module _ (machine : Machine) (flags : Flags) (suite : TestSuite machine.State)
    (instances : Instances machine.State) where
  -- `arc.getArchive`: the archive is made once.
  unfoldable pub get_archive : Action (World machine.State) (String × Option Err)
  unfolding create_test_archive
  get_archive w =
      let (made, w') = create_test_archive machine suite w in
      elim w.archive [ some a ↦ (a, w) | none ↦ (made, record w' { archive = some made }) ]

  unfoldable pub delete_archive : Action (World machine.State) (Unit {0})
  unfolding get_archive
  delete_archive = run do
    (path, e) ← call get_archive
    on_option e (λ _. give tt) (do _ ← call (on (machine.remove path)); give tt)

  module _ (new_aggregate : List Err → Option Err) where
    -- `testHost` behind the making of the archive.
    unfoldable pub run_archived :
        String → Bool → String → String × Option Err → Action (World machine.State) TestResult
    run_archived host delete_files ginkgo_flags_str (path, none) = run do
      (output, exit_ok, e) ← call (
          run_remote machine flags new_aggregate suite path host delete_files flags.test_args
            ginkgo_flags_str)
      give (record { output = output; err = e; host = host; exit_ok = exit_ok })
    run_archived host delete_files ginkgo_flags_str (path, some e) = λ w. (
      record {
        output = "";
        err = some (errorf "unable to create test archive: %v" (error e end));
        host = "";
        exit_ok = false;
      },
      w,
    )

    -- `testHost`
    unfoldable pub test_host : String → Bool → String → Action (World machine.State) TestResult
    test_host host delete_files ginkgo_flags_str = run do
      got ← call (on (instances.get flags.project flags.zone host))
      on_answer got
          (λ instance'. do
            give_if (not (is_running instance')) (record {
              output = "";
              err = some (
                  errorf "instance %s not in state RUNNING, was %s"
                    (str host (str instance'.status end)));
              host = host;
              exit_ok = false;
            })
            drop (note_external_ip host instance')
            archive ← call get_archive
            call (run_archived host delete_files ginkgo_flags_str archive))
          (λ e. give (record { output = ""; err = some e; host = host; exit_ok = false }))

    -- The serial log of the instance, whose errors are logged.
    unfoldable pub collect_serial_log : String → Action (World machine.State) (Unit {0})
    unfolding write_log
    collect_serial_log host = run do
      read ← call (on (instances.get_serial_port_output flags.project flags.zone host 1))
      on_answer read
          (λ contents. do _ ← call (write_log machine flags host "serial-1.log" contents); give tt)
          (λ e. give tt)

    module _ (poll : Poll (World machine.State)) where
      -- `test` behind the making of the instance.
      unfoldable pub test_created :
          String → String → Option Err → Action (World machine.State) TestResult
      test_created ginkgo_flags_str host (some e) = λ w. (
        record {
          output = "";
          err = some (
              errorf "unable to create gce instance with running docker daemon for image.  %v"
                (error e end));
          host = "";
          exit_ok = false;
        },
        w,
      )
      test_created ginkgo_flags_str host none = run do
        let delete_files = not flags.delete_instances && flags.cleanup
        result ← call (test_host host delete_files ginkgo_flags_str)
        drop (collect_serial_log host)
        give result

      unfoldable pub test : List String → Action (World machine.State) TestResult
      test tests = run do
        (host, e) ← call (create_instance machine flags instances poll)
        let body = test_created (ginkgo_flags_of flags tests) host e
        let deleted = deferring (delete_instance machine flags instances host) body
        call (if flags.delete_instances then deleted else body)

      -- `main` from the tests on: its exit status. `os.Exit` runs no deferred call.
      unfoldable pub run_suite : Action (World machine.State) ℕ
      run_suite = run do
        results ← call (test ("TODO tests" ∷ []))
        drop delete_archive
        give (if not results.exit_ok then 1 else 0)
