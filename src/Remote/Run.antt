-- ===== src/Remote/Run.antt =====
-- A run of the tests on a host: `RunRemote` of test/remote/remote/remote.go.
use compute_persistent_disk.Prelude.{
  String, ◌<>◌, Bool, false, Option, none, some, List, [], ◌∷◌, ◌++◌, is_empty, if◌then◌else◌,
}
use compute_persistent_disk.Go.Path.{join_path}
use compute_persistent_disk.Go.Error.{Err, errorf, end, str, error}
use compute_persistent_disk.Go.Handler.{Action, Body, next, ◌>>=◌, ◌>>◌, give, call, run}
use compute_persistent_disk.Remote.{Flags, Machine, World, TestSuite, deferring}
use compute_persistent_disk.Remote.Ssh.{get_ssh_command, ssh, ssh_no_sudo}
use compute_persistent_disk.Remote.Archive.{archive_name}
use compute_persistent_disk.Remote.Workspace.{new_workspace_dir}
use compute_persistent_disk.Remote.Artifacts.{scp, remote_path, get_test_artifacts}

-- What `RunRemote` returns where it fails.
abbrev pub failed : Err → String × Bool × Option Err
failed e = ("", false, some e)

-- `if output, err := ...; err != nil { return "", false, ... }`
abbrev pub unless :
    {S : Type 0}
    → (Err → String → Err)
    → String × Option Err
    → Body S (String × Bool × Option Err) (Unit {0})
unless f (output, none) s = (next tt, s)
unless f (output, some e) s = give (failed (f e output)) s

-- What `RunRemote` makes of the error and the output of a command.
abbrev pub workspace_error : String → String → Err → String → Err
workspace_error workspace host e output =
    errorf "failed to create workspace directory %q on host %q: %v output: %q"
      (str workspace (str host (error e (str output end))))

abbrev pub copy_error : Err → String → Err
copy_error e output =
    errorf "failed to copy test archive: %v, output: %q" (error e (str output end))

abbrev pub extract_error : Err → String → Err
extract_error e output =
    errorf "failed to extract test archive: %v, output: %q" (error e (str output end))

abbrev pub result_dir_error : String → String → Err → String → Err
result_dir_error result_dir host e output =
    errorf "failed to create test result directory %q on host %q: %v output: %q"
      (str result_dir (str host (error e (str output end))))

-- The command that extracts the archive.
abbrev pub extraction : String → List String
extraction workspace =
    let cmd =
      get_ssh_command " && " (("cd " <> workspace) ∷ ("tar -xzvf ./" <> archive_name) ∷ []) in
    "sh" ∷ "-c" ∷ cmd ∷ []

-- `append` of an error that is not nil.
abbrev pub collected : Option Err → List Err → List Err
collected none errs = errs
collected (some e) errs = errs ++ e ∷ []

-- `new_aggregate` is `utilerrors.NewAggregate`.
module _ (machine : Machine) (flags : Flags) (new_aggregate : List Err → Option Err)
    (suite : TestSuite machine.State) where
  -- `RunRemote` from the run of the tests on.
  unfoldable pub run_tests :
      String
      → String
      → String
      → String
      → String
      → Action (World machine.State) (String × Bool × Option Err)
  run_tests workspace result_dir host test_args ginkgo_args = run do
    (output, e) ←
        call (suite.run_test host workspace result_dir test_args ginkgo_args flags.test_timeout)
    scp_err ← call (get_test_artifacts machine flags host workspace)
    let agg_errs = collected scp_err (collected e [])
    give (output, is_empty agg_errs, new_aggregate agg_errs)

  -- `RunRemote` from the making of the directory of the results on.
  unfoldable pub run_extracted :
      String → String → String → String → Action (World machine.State) (String × Bool × Option Err)
  run_extracted workspace host test_args ginkgo_args = run do
    let result_dir = join_path workspace "results"
    made ← call (ssh_no_sudo flags machine host ("mkdir" ∷ result_dir ∷ []))
    unless (result_dir_error result_dir host) made
    call (run_tests workspace result_dir host test_args ginkgo_args)

  -- `RunRemote` from the extraction of the archive on.
  unfoldable pub run_copied :
      String → String → String → String → Action (World machine.State) (String × Bool × Option Err)
  run_copied workspace host test_args ginkgo_args = run do
    extracted ← call (ssh_no_sudo flags machine host (extraction workspace))
    unless extract_error extracted
    call (run_extracted workspace host test_args ginkgo_args)

  -- `RunRemote` from the copying of the archive on.
  unfoldable pub run_in :
      String
      → String
      → String
      → String
      → String
      → Action (World machine.State) (String × Bool × Option Err)
  run_in workspace archive host test_args ginkgo_args = run do
    copied ←
        call (
          scp machine flags λ w. archive ∷ remote_path machine flags w host (workspace <> "/") ∷ [])
    unless copy_error copied
    call (run_copied workspace host test_args ginkgo_args)

  unfoldable pub run_remote :
      String
      → String
      → Bool
      → String
      → String
      → Action (World machine.State) (String × Bool × Option Err)
  run_remote archive host cleanup test_args ginkgo_args = run do
    workspace ← call (new_workspace_dir machine)
    made ← call (ssh_no_sudo flags machine host ("mkdir" ∷ workspace ∷ []))
    unless (workspace_error workspace host) made
    let body = run_in workspace archive host test_args ginkgo_args
    let cleaned = deferring (ssh flags machine host ("rm" ∷ "-rf" ∷ workspace ∷ [])) body
    call (if cleanup then cleaned else body)
