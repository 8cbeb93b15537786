-- ===== src/Remote/Main.antt =====
-- `main` of test/remote/run_remote/run_remote.go, without what it prints, and its exit status.
use compute_persistent_disk.Prelude.{ℕ, String, Option, none, some, List, if◌then◌else◌}
use compute_persistent_disk.Go.Error.{Err, Result, ok, panic, Answer, answer, refused}
use compute_persistent_disk.Go.Handler.{Action}
use compute_persistent_disk.Cloud.Poll.{Poll}
use compute_persistent_disk.Remote.{Flags, Machine, World, on}
use compute_persistent_disk.Remote.Archive.{init_e2e_remote, create_test_archive}
use compute_persistent_disk.Remote.Client.{Connection, get_compute_client}
use compute_persistent_disk.Remote.Hosts.{Instances}
use compute_persistent_disk.Remote.Tests.{run_suite}

-- `stat.Mode()` panics on the nil `stat` of a standard output that cannot be looked at, whose error is
-- dropped. Otherwise the runner goes on.
unfoldable pub mode_then : {S : Type 0} → Option Err → ℕ × World S → Action (World S) (Result ℕ)
mode_then none (status, w') w = (ok status, w')
mode_then (some e) ran w = (panic, w)

module _ (machine : Machine) (flags : Flags) (connection : Connection machine.State)
    (compute : connection.Service → Instances machine.State) (poll : Poll (World machine.State))
    (new_aggregate : List Err → Option Err) where
  -- `main` behind the connection. `glog.Fatalf` exits with status 255. A service that is nil panics.
  unfoldable pub main_connected :
      Option connection.Service × Option Err → Action (World machine.State) (Result ℕ)
  main_connected (cs, some e) w = (ok 255, w)
  main_connected (none, none) w = (panic, w)
  main_connected (some cs, none) w =
      mode_then machine.stdout_stat
        (run_suite machine flags (init_e2e_remote machine flags) (compute cs) new_aggregate poll w)
        w

  -- The exit status; `none` is that the fuel of the loop of `getComputeClient` ran out.
  unfoldable pub main : Action (World machine.State) (Option (Result ℕ))
  main w =
      let built = create_test_archive machine (init_e2e_remote machine flags) w in
      let (client, w1) = on (get_compute_client connection) w in
      if flags.build_only then (some (ok 0), built.1) else elim client [
        | none ↦ (none, w1)
        | some r ↦ (let (status, w2) = main_connected r w1 in (some status, w2))
      ]

module _ (machine : Machine) (flags : Flags) (connection : Connection machine.State)
    (compute : connection.Service → Instances machine.State) (poll : Poll (World machine.State))
    (new_aggregate : List Err → Option Err) where
  -- The `init` of ssh.go, which exits by `glog.Fatal` where the user is not known and takes the home
  -- directory from it otherwise, and `main`.
  unfoldable pub process_of : Answer String → Action (World machine.State) (Option (Result ℕ))
  process_of (refused e) w = (some (ok 255), w)
  process_of (answer home_dir) w =
      main machine (record flags { home_dir = home_dir }) connection compute poll new_aggregate w

  unfoldable pub process : Action (World machine.State) (Option (Result ℕ))
  process w = process_of machine.user_current w
