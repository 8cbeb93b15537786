-- ===== src/Remote/Artifacts.antt =====
-- The files that test/remote/remote/remote.go brings back from a host, and writes of it.
use compute_persistent_disk.Prelude.{String, ◌<>◌, Option, none, some, List, [], ◌∷◌}
use compute_persistent_disk.Go.Path.{join_path}
use compute_persistent_disk.Go.Error.{Err, errorf, end, str, error}
use compute_persistent_disk.Go.Handler.{
  on_answer, Action, Body, next, ◌>>=◌, ◌>>◌, give, give_some, call, run,
}
use compute_persistent_disk.Remote.{Flags, Machine, World, on, deferring}
use compute_persistent_disk.Remote.Ssh.{get_hostname_or_ip, run_ssh_command, ssh}

module _ (machine : Machine) (flags : Flags) where
  -- A remote path for scp.
  abbrev pub remote_path : World machine.State → String → String → String
  remote_path w host path = get_hostname_or_ip flags w.hostname_ip_overrides host <> (":" <> path)

  -- `runSSHCommand` with arguments that name the host.
  abbrev pub scp :
      (World machine.State → List String) → Action (World machine.State) (String × Option Err)
  scp args w = run_ssh_command flags machine "scp" (args w) w

  -- The files that there are none of are left: `ls` fails.
  abbrev pub if_listed :
      Option Err
      → (World machine.State → List String)
      → Body (World machine.State) (Option Err) (Unit {0})
  if_listed none args = do (output, e) ← call (scp args); give_some e
  if_listed (some _) args = λ w. (next tt, w)

  unfoldable pub get_test_artifacts : String → String → Action (World machine.State) (Option Err)
  unfolding join_path run_ssh_command ssh
  get_test_artifacts host test_dir = run do
    let log_path = join_path flags.results_dir host
    made ← call (on (machine.mkdir_all log_path 0o755))
    give_some (elim made [
      | none ↦ none
      | some e ↦ some (errorf "failed to create log directory %q: %v" (str log_path (error e end)))
    ])
    (_, e) ←
        call (scp λ w. "-r" ∷ remote_path w host (test_dir <> "/results/*.log") ∷ log_path ∷ [])
    give_some e
    (_, no_json) ← call (ssh flags machine host ("ls" ∷ (test_dir <> "/results/*.json") ∷ []))
    if_listed no_json
        (λ w. "-r" ∷ remote_path w host (test_dir <> "/results/*.json") ∷ flags.results_dir ∷ [])
    (_, no_junit) ← call (ssh flags machine host ("ls" ∷ (test_dir <> "/results/junit*") ∷ []))
    if_listed no_junit
        (λ w. remote_path w host (test_dir <> "/results/junit*") ∷ flags.results_dir ∷ [])
    give none

  unfoldable pub write_log : String → String → String → Action (World machine.State) (Option Err)
  unfolding join_path
  write_log host filename content = run do
    let log_path = join_path flags.results_dir host
    made ← call (on (machine.mkdir_all log_path 0o755))
    give_some (elim made [
      | none ↦ none
      | some e ↦ some (errorf "failed to create log directory %q: %v" (str log_path (error e end)))
    ])
    created ← call (on (machine.create (join_path log_path filename)))
    on_answer created
        (λ f. call (deferring (on (machine.close f)) (on (machine.write_string f content))))
        (λ e. give (some e))
