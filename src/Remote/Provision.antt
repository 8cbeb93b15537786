-- ===== src/Remote/Provision.antt =====
-- The instance of test/remote/run_remote/run_remote.go: it is made, waited for, and deleted.
use compute_persistent_disk.Prelude.{
  String, Bool, true, false, not, Option, none, some, [], ◌∷◌, ◌*◌,
}
use compute_persistent_disk.Go.Error.{Err, errorf, end, str, error}
use compute_persistent_disk.Go.Handler.{
  on_answer, on_option, Action, ◌>>=◌, ◌>>◌, give, give_if, call, drop, run,
}
use compute_persistent_disk.Cloud.Poll.{Poll, second}
use compute_persistent_disk.Remote.{Flags, Machine, World, on}
use compute_persistent_disk.Remote.Ssh.{ssh_no_sudo}
use compute_persistent_disk.Remote.Hosts.{
  HostRequest, Inserted, started, rejected, Instances, instance_name, is_running, note_external_ip,
  host_request,
}

module _ (machine : Machine) (flags : Flags) (instances : Instances machine.State) where
  -- The condition for which `createInstance` polls.
  unfoldable pub instance_up : String → Action (World machine.State) (Bool × Option Err)
  instance_up name = run do
    got ← call (on (instances.get flags.project flags.zone name))
    on_answer got
        (λ instance'. do
          give_if (not (is_running instance')) (false, none)
          drop (note_external_ip name instance')
          (_, e) ← call (ssh_no_sudo flags machine name ("echo" ∷ []))
          give (elim e [ none ↦ (true, none) | some e ↦ (false, none) ]))
        (λ e. give (false, none))

  -- What is returned for an insertion, where that fails. The code puts the message together in steps and
  -- takes it for a format once more, which is one format here.
  abbrev insertion_error : Inserted → Option Err
  insertion_error (started none) = none
  insertion_error (started (some e)) =
      some (errorf "could not create instance %s: %+v" (str instance_name (str e end)))
  insertion_error (rejected none e) =
      some (errorf "could not create instance %s: API error: %v" (str instance_name (error e end)))
  insertion_error (rejected (some op) e) = some (
      errorf "could not create instance %s: API error: %v: %v"
        (str instance_name (error e (str (elim op [ none ↦ "<nil>" | some e ↦ e ]) end))))

  -- An instance that the cloud does not give is inserted.
  unfoldable pub insert_missing : HostRequest → Action (World machine.State) (Option Err)
  insert_missing i = run do
    got ← call (on (instances.get flags.project flags.zone i.name))
    on_answer got (λ _. give none)
        (λ _. do
          inserted ← call (on (instances.insert flags.project flags.zone i))
          give (insertion_error inserted))

  unfoldable pub delete_instance : String → Action (World machine.State) (Option Err)
  delete_instance host = on (instances.delete flags.project flags.zone host)

  module _ (poll : Poll (World machine.State)) where
    unfoldable pub create_instance : Action (World machine.State) (String × Option Err)
    create_instance = run do
      my_uuid ← call (on machine.new_uuid)
      failure ← call (insert_missing (host_request flags.zone my_uuid))
      on_option failure (λ e. give ("", some e))
          (do
            e ← call (poll (15 * second) (10 * 60 * second) (instance_up instance_name))
            give (instance_name, e))
