-- ===== src/Witnesses/Remote.antt =====
-- The remote runner on a machine on which every command succeeds, and a cloud whose instance runs.
use compute_persistent_disk.Prelude.{
  ℕ, suc, true, false, ◌≡◌, refl, Option, none, some, List, [], ◌∷◌, nat_eq, if◌then◌else◌,
}
use compute_persistent_disk.Go.Error.{Err, Result, foreign, answer, refused}
use compute_persistent_disk.Remote.{Flags, Machine, World}
use compute_persistent_disk.Remote.Archive.{init_e2e_remote}
use compute_persistent_disk.Remote.Workspace.{
  matches, new_workspace_dir, get_timestamp_from_workspace_dir,
}
use compute_persistent_disk.Remote.Client.{Connection, get_compute_client}
use compute_persistent_disk.Remote.Attempts.{Ended, get_compute_client-Ended}
use compute_persistent_disk.Remote.Hosts.{Instances, instance_name, started}
use compute_persistent_disk.Remote.Tests.{test, run_suite}
use compute_persistent_disk.Remote.Timestamp.{workspace_timestamp}
use compute_persistent_disk.Remote.Ignored.{test-ignores}
use compute_persistent_disk.Remote.Kept.{Kept}
use compute_persistent_disk.Remote.Kept.Suite.{run_suite-Kept}
use compute_persistent_disk.Remote.Main.{process}
use compute_persistent_disk.Remote.Exit.{ProcessExited, process-ProcessExited}
use compute_persistent_disk.Witnesses.Libraries.{once, once-IsPoll}

abbrev flags : Flags
flags = record {
  ssh_options = "";
  ssh_env = "gce";
  ssh_key = "";
  ssh_user = "prow";
  home_dir = "/root";
  test_timeout = 2700;
  results_dir = "/results";
  test_args = "";
  zone = "z";
  project = "p";
  cleanup = true;
  delete_instances = true;
  build_only = false;
  ginkgo_flags = "--skip=slow";
}

-- The state counts the calls.
abbrev machine : Machine
machine = record {
  State = ℕ;
  File = Unit {0};
  output = λ cmd args s. (("done", none), suc s);
  now = λ format s. ("20180801T101112", suc s);
  new_uuid = λ s. ("u", suc s);
  lookup_env = λ name s. (some "/go", suc s);
  getwd = λ s. (answer "/work", suc s);
  stat = λ path s. (none, suc s);
  temp_dir = λ dir prefix s. (answer "/tmp/archive", suc s);
  mkdir_all = λ path mode s. (none, suc s);
  remove = λ path s. (none, suc s);
  remove_all = λ path s. (none, suc s);
  create = λ path s. (answer tt, suc s);
  write_string = λ f text s. (none, suc s);
  close = λ f s. (none, suc s);
  user_current = answer "/root";
  stdout_stat = none;
}

abbrev world : World ℕ
world = record { machine = 0; hostname_ip_overrides = []; archive = none }

abbrev instances : Instances ℕ
instances = record {
  get = λ project zone name s. (
    answer (record { status = "RUNNING"; network_interfaces = ("" ∷ "1.2.3.4" ∷ []) ∷ [] }),
    suc s,
  );
  insert = λ project zone i s. (started none, suc s);
  delete = λ project zone name s. (none, suc s);
  get_serial_port_output = λ project zone name port s. (answer "boot", suc s);
}

-- The first attempt to connect fails.
abbrev connection : Connection ℕ
connection = record {
  Client = Unit {0};
  Service = Unit {0};
  default_client =
      λ s. ((if nat_eq s 0 then refused (foreign "no credentials") else answer tt), suc s);
  new_service = λ client s. (answer tt, suc s);
  sleep = λ duration s. (tt, suc s);
}

abbrev compute : Unit {0} → Instances ℕ
compute service = instances

abbrev new_aggregate : List Err → Option Err
new_aggregate [] = none
new_aggregate (e ∷ es) = some e

get_compute_client-Ended_example :
    (r : Option (Unit {0}) × Option Err) × ((get_compute_client connection 0).0 ≡ some r)
    × Ended connection 0 r (get_compute_client connection 0).1
get_compute_client-Ended_example = get_compute_client-Ended connection 0

workspace_timestamp_example :
    get_timestamp_from_workspace_dir machine (new_workspace_dir machine world).0 world
    ≡ ("20180801T101112", world)
unfolding matches
workspace_timestamp_example = workspace_timestamp machine world world refl

test-ignores_example :
    let changed = record flags {
      ginkgo_flags = "--focus=fast";
      test_args = "-v";
      test_timeout = 1;
    } in
    test machine changed
      (init_e2e_remote machine changed)
      instances
      new_aggregate
      once
      ("a" ∷ [])
      world
    ≡ test machine flags (init_e2e_remote machine flags) instances new_aggregate once [] world
test-ignores_example =
    test-ignores machine flags instances new_aggregate once [] ("a" ∷ []) "--focus=fast" "-v" 1
      world

process-ProcessExited_example :
    (result : Result ℕ) × ((process machine flags connection compute once new_aggregate world).0
      ≡ some result)
    × ProcessExited machine flags connection compute once new_aggregate world result
process-ProcessExited_example =
    process-ProcessExited machine flags connection compute once new_aggregate world once-IsPoll

abbrev warm : World ℕ
warm = record world { archive = some ("/work/e2e.tar.gz", none) }

run_suite-Kept_example :
    Kept instance_name warm
      (run_suite machine flags (init_e2e_remote machine flags) instances new_aggregate once warm).1
run_suite-Kept_example = run_suite-Kept machine flags instances once new_aggregate warm once-IsPoll
