-- ===== src/Remote/Ssh.antt =====
-- test/remote/remote/ssh.go: the commands that are run on a host.
use compute_persistent_disk.Prelude.{
  String, ◌<>◌, not, Option, none, some, List, [], ◌∷◌, ◌++◌, ◌==◌, if◌then◌else◌,
}
use compute_persistent_disk.Go.Strings.{split, join}
use compute_persistent_disk.Go.Error.{Err, errorf, end, str, error}
use compute_persistent_disk.Go.Handler.{Action}
use compute_persistent_disk.Go.Dict.{Dict, lookup, insert}
use compute_persistent_disk.Remote.{Flags, Machine, World, on}

abbrev pub ssh_options_map : Dict String
ssh_options_map =
    (
      "gce",
      "-o UserKnownHostsFile=/dev/null -o IdentitiesOnly=yes -o CheckHostIP=no -o StrictHostKeyChecking=no -o ServerAliveInterval=30 -o LogLevel=ERROR",
    )
    ∷ []

abbrev pub ssh_default_key_map : String → Dict String
ssh_default_key_map home_dir = ("gce", home_dir <> "/.ssh/google_compute_engine") ∷ []

-- `AddHostnameIP`
unfoldable pub add_hostname_ip : {S : Type 0} → String → String → Action (World S) (Unit {0})
unfolding insert
add_hostname_ip hostname ip w =
    (tt, record w { hostname_ip_overrides = insert hostname ip w.hostname_ip_overrides })

-- `getSSHCommand`
unfoldable pub get_ssh_command : String → List String → String
unfolding join
get_ssh_command sep args = "'" <> (join sep args <> "'")

module _ (flags : Flags) where
  -- `GetHostnameOrIP`, of the addresses that stand for hosts.
  unfoldable pub get_hostname_or_ip : Dict String → String → String
  unfolding lookup
  get_hostname_or_ip overrides hostname =
      let host : String = elim (lookup hostname overrides) [ none ↦ hostname | some ip ↦ ip ] in
      if not (flags.ssh_user == "") then flags.ssh_user <> ("@" <> host) else host

  -- The arguments with the key in front of them.
  abbrev with_key : List String → List String
  with_key args =
      if not (flags.ssh_key == "")
      then "-i" ∷ flags.ssh_key ∷ args
      else elim (lookup flags.ssh_env (ssh_default_key_map flags.home_dir)) [
        | none ↦ args
        | some key ↦ "-i" ∷ key ∷ args
      ]

  -- The arguments with the options of the environment in front of them.
  abbrev with_env : List String → List String
  with_env args = elim (lookup flags.ssh_env ssh_options_map) [
    | none ↦ args
    | some env ↦ split b' ' env ++ args
  ]

  -- The arguments that `runSSHCommand` gives to the command.
  unfoldable pub ssh_args : List String → List String
  unfolding split lookup
  ssh_args args =
      let enved = with_env (with_key args) in
      if not (flags.ssh_options == "") then split b' ' flags.ssh_options ++ enved else enved

  module _ (machine : Machine) where
    -- What `runSSHCommand` makes of the error of the command.
    abbrev command_error : String → List String → String × Option Err → String × Option Err
    command_error cmd args (output, none) = (output, none)
    command_error cmd args (output, some e) = (
      output,
      some (
          errorf "command [%s %s] failed with error: %v"
            (str cmd (str (join " " args) (error e end)))),
    )

    unfoldable pub run_ssh_command :
        String → List String → Action (World machine.State) (String × Option Err)
    unfolding ssh_args join
    run_ssh_command cmd args w =
        let (ended, w') = on (machine.output cmd (ssh_args args)) w in
        (command_error cmd (ssh_args args) ended, w')

    -- `SSH`
    unfoldable pub ssh : String → List String → Action (World machine.State) (String × Option Err)
    unfolding run_ssh_command get_hostname_or_ip
    ssh host cmd w =
        run_ssh_command "ssh"
          (get_hostname_or_ip w.hostname_ip_overrides host ∷ "--" ∷ "sudo" ∷ cmd) w

    -- `SSHNoSudo`
    unfoldable pub ssh_no_sudo :
        String → List String → Action (World machine.State) (String × Option Err)
    unfolding run_ssh_command get_hostname_or_ip
    ssh_no_sudo host cmd w =
        run_ssh_command "ssh" (get_hostname_or_ip w.hostname_ip_overrides host ∷ "--" ∷ cmd) w
