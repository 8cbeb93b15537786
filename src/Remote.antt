-- ===== src/Remote.antt =====
-- test/remote: the runner that makes an instance on the cloud, runs the tests of the driver on it by
-- ssh, and deletes it. The machine on which it runs and the compute client are parameters.
pub mod Ssh
pub mod Archive
pub mod Workspace
pub mod Artifacts
pub mod Run
pub mod Client
pub mod Attempts
pub mod Hosts
pub mod Provision
pub mod Tests
pub mod Timestamp
pub mod Cleanup
pub mod Passed
pub mod Up
pub mod Success
pub mod Ignored
pub mod Kept
pub mod Main
pub mod Exit
use compute_persistent_disk.Prelude.{ℕ, String, Bool, Option, none, some, List}
use compute_persistent_disk.Go.Error.{Err, Answer}
use compute_persistent_disk.Go.Handler.{Action}
use compute_persistent_disk.Go.Dict.{Dict}

-- The flags of the packages, and the home directory of the user.
pub record Flags : Type 0 where
  pub ssh_options : String
  pub ssh_env : String
  pub ssh_key : String
  pub ssh_user : String
  pub home_dir : String
  pub test_timeout : ℕ
  pub results_dir : String
  pub test_args : String
  pub zone : String
  pub project : String
  pub cleanup : Bool
  pub delete_instances : Bool
  pub build_only : Bool
  pub ginkgo_flags : String

-- The machine: commands with their combined output, the time in a format, files, the environment.
pub record Machine : Type 1 where
  pub State : Type 0
  pub File : Type 0
  pub output : String → List String → Action State (String × Option Err)
  pub now : String → Action State String
  pub new_uuid : Action State String
  pub lookup_env : String → Action State (Option String)
  pub getwd : Action State (Answer String)
  pub stat : String → Action State (Option Err)
  pub temp_dir : String → String → Action State (Answer String)
  pub mkdir_all : String → ℕ → Action State (Option Err)
  pub remove : String → Action State (Option Err)
  pub remove_all : String → Action State (Option Err)
  pub create : String → Action State (Answer File)
  pub write_string : File → String → Action State (Option Err)
  pub close : File → Action State (Option Err)
  -- `user.Current()`, with the home directory, and the error of `os.Stdout.Stat()`, which change nothing.
  pub user_current : Answer String
  pub stdout_stat : Option Err

-- The machine with the variables of the packages: the addresses that stand for hosts, and what the
-- archive is, once it was made.
pub record World (S : Type 0) : Type 0 where
  pub machine : S
  pub hostname_ip_overrides : Dict String
  pub archive : Option (String × Option Err)

-- An action of the machine.
abbrev pub on : {S A : Type 0} → Action S A → Action (World S) A
on m w = let (a, s') = m w.machine in (a, record w { machine = s' })

-- `defer`: the cleanup is run when the body has returned.
abbrev pub deferring : {S A B : Type 0} → Action S B → Action S A → Action S A
deferring cleanup body s = let (a, s') = body s in let (_, s'') = cleanup s' in (a, s'')

-- The interface `TestSuite`.
pub record TestSuite (S : Type 0) : Type 0 where
  pub setup_test_package : String → Action (World S) (Option Err)
  -- host, workspace, results, testArgs, ginkgoArgs, timeout
  pub run_test :
      String → String → String → String → String → ℕ → Action (World S) (String × Option Err)
