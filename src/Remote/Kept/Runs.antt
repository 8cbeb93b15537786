-- ===== src/Remote/Kept/Runs.antt =====
-- A run of the remote runner keeps its variables.
use compute_persistent_disk.Prelude.{
  if◌then◌else◌, true, false, String, Bool, ◌==◌, ◌≡◌, refl, List, Option, none, some, Bool-cases,
  inl, inr,
}
use compute_persistent_disk.Go.Error.{Err}
use compute_persistent_disk.Go.Handler.{Action}
use compute_persistent_disk.Go.Dict.{Dict, lookup, insert, lookup-insert}
use compute_persistent_disk.Cloud.Poll.{Polled, met, failed, over, again}
use compute_persistent_disk.Remote.{Flags, Machine, World}
use compute_persistent_disk.Remote.Ssh.{add_hostname_ip}
use compute_persistent_disk.Remote.Archive.{init_e2e_remote}
use compute_persistent_disk.Remote.Hosts.{
  Host, HostRequest, Instances, get_external_ip, note_external_ip,
}
use compute_persistent_disk.Remote.Provision.{instance_up, insert_missing, delete_instance}
use compute_persistent_disk.Remote.Tests.{
  get_archive, delete_archive, run_archived, test_host, collect_serial_log,
}
use compute_persistent_disk.Remote.Kept.{
  Kept, Keeps, keeps, Keeps-Kept, same-Kept, trans-Kept, keeping,
}
use compute_persistent_disk.Remote.Kept.Actions.{
  ssh_no_sudo-Keeps, write_log-Keeps, create_test_archive-Keeps, run_remote-Keeps,
}

inserted :
    (b : Bool) (ip : String) (found old : Option String)
    → found ≡ (if b then some ip else old)
    → found ≡ (if b then found else old)
inserted true ip found old h = refl
inserted false ip found old h = h

add_hostname_ip-Keeps :
    {S : Type 0} (name ip : String) → Keeps name (add_hostname_ip {S = S} name ip)
unfolding add_hostname_ip
add_hostname_ip-Keeps name ip = keeps λ w. (
  inr refl,
  λ other.
      inserted (name == other) ip (lookup other (insert name ip w.hostname_ip_overrides))
        (lookup other w.hostname_ip_overrides)
        (lookup-insert name other ip w.hostname_ip_overrides),
)

note_external_ip-Keeps :
    {S : Type 0} (name : String) (h : Host) → Keeps name (note_external_ip {S = S} name h)
unfolding note_external_ip
note_external_ip-Keeps name h = keeps λ w.
    elim (Bool-cases (get_external_ip h.network_interfaces == "")) [
      | inl e ↦ rw e (same-Kept name w)
      | inr e ↦
          rw e (Keeps-Kept (add_hostname_ip-Keeps name (get_external_ip h.network_interfaces)) w)
    ]

-- A poll runs its condition and nothing else.
pub Polled-Kept :
    {S : Type 0} (name : String) (condition : Action (World S) (Bool × Option Err)) {w w' : World S}
    {r : Option Err}
    → Keeps name condition
    → Polled condition w r w'
    → Kept name w w'
Polled-Kept name condition {w} k (met e) = rw e at (Keeps-Kept k w)
Polled-Kept name condition {w} k (failed e) = rw e at (Keeps-Kept k w)
Polled-Kept name condition {w} k (over _ e) = rw e at (Keeps-Kept k w)
Polled-Kept name condition {w} {w'} k (again {s' = u} e p) =
    trans-Kept name w u w' (rw e at (Keeps-Kept k w)) (Polled-Kept name condition k p)

module _ (machine : Machine) (flags : Flags) (instances : Instances machine.State) where
  pub instance_up-Keeps : (name : String) → Keeps name (instance_up machine flags instances name)
  unfolding instance_up
  instance_up-Keeps name = search (keeping, note_external_ip-Keeps, ssh_no_sudo-Keeps) depth 30

  pub insert_missing-Keeps :
      (name : String) (i : HostRequest) → Keeps name (insert_missing machine flags instances i)
  unfolding insert_missing
  insert_missing-Keeps name i = search keeping depth 30

  pub delete_instance-Keeps :
      (name host : String) → Keeps name (delete_instance machine flags instances host)
  unfolding delete_instance
  delete_instance-Keeps name host = search keeping depth 30

  archive-Kept :
      (name : String) (s : machine.State) (ips : Dict String)
      (archive : Option (String × Option Err))
      → let w : World machine.State = record {
        machine = s;
        hostname_ip_overrides = ips;
        archive = archive;
      } in
        Kept name w (get_archive machine flags (init_e2e_remote machine flags) instances w).1
  unfolding get_archive
  archive-Kept name s ips none = (
    inl refl,
    (Keeps-Kept (create_test_archive-Keeps name machine flags)
        (record { machine = s; hostname_ip_overrides = ips; archive = none })).1,
  )
  archive-Kept name s ips (some a) =
      same-Kept name (record { machine = s; hostname_ip_overrides = ips; archive = some a })

  get_archive-Keeps :
      (name : String)
      → Keeps name (get_archive machine flags (init_e2e_remote machine flags) instances)
  get_archive-Keeps name = keeps λ w. archive-Kept name w.machine w.hostname_ip_overrides w.archive

  pub delete_archive-Keeps :
      (name : String)
      → Keeps name (delete_archive machine flags (init_e2e_remote machine flags) instances)
  unfolding delete_archive
  delete_archive-Keeps name = search (keeping, get_archive-Keeps) depth 30

  pub collect_serial_log-Keeps :
      (new_aggregate : List Err → Option Err) (name host : String)
      → Keeps name (
          collect_serial_log machine flags
            (init_e2e_remote machine flags)
            instances
            new_aggregate
            host)
  unfolding collect_serial_log
  collect_serial_log-Keeps new_aggregate name host = search (keeping, write_log-Keeps) depth 30

  run_archived-Keeps :
      (new_aggregate : List Err → Option Err) (name host : String) (delete_files : Bool)
      (ginkgo_args : String) (archive : String × Option Err)
      → Keeps name (
          run_archived machine flags
            (init_e2e_remote machine flags)
            instances
            new_aggregate
            host
            delete_files
            ginkgo_args
            archive)
  unfolding run_archived
  run_archived-Keeps new_aggregate name host delete_files ginkgo_args (path, none) =
      search (keeping, run_remote-Keeps) depth 30
  run_archived-Keeps new_aggregate name host delete_files ginkgo_args (path, some e) =
      keeps (same-Kept name)

  pub test_host-Keeps :
      (new_aggregate : List Err → Option Err) (name : String) (delete_files : Bool)
      (ginkgo_args : String)
      → Keeps name (
          test_host machine flags
            (init_e2e_remote machine flags)
            instances
            new_aggregate
            name
            delete_files
            ginkgo_args)
  unfolding test_host
  test_host-Keeps new_aggregate name delete_files ginkgo_args =
      search (keeping, note_external_ip-Keeps, get_archive-Keeps, run_archived-Keeps) depth 30
