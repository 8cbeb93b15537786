-- ===== src/Remote/Cleanup.antt =====
-- What the remote runner leaves behind: the workspace on a host, and the instance.
use compute_persistent_disk.Prelude.{
  String, Bool, true, false, ◌≡◌, refl, ap, List, [], ◌∷◌, Option, none, some, Option-cases, ◌⊎◌,
  inl, inr,
}
use compute_persistent_disk.Go.Error.{Err}
use compute_persistent_disk.Go.Handler.{Body, ◌>>◌, call, run}
use compute_persistent_disk.Cloud.Poll.{Poll}
use compute_persistent_disk.Remote.{Flags, Machine, World, TestSuite, on, deferring}
use compute_persistent_disk.Remote.Ssh.{ssh, ssh_no_sudo}
use compute_persistent_disk.Remote.Workspace.{new_workspace_dir}
use compute_persistent_disk.Remote.Run.{run_in, run_remote, unless, workspace_error}
use compute_persistent_disk.Remote.Hosts.{Instances, instance_name, host_request}
use compute_persistent_disk.Remote.Provision.{insert_missing, create_instance}

-- The function goes on where there is no error, and else it has failed in the state in which it is.
unless-either :
    {S : Type 0} (f : Err → String → Err) (ended : String × Option Err)
    (rest : Body S (String × Bool × Option Err) (String × Bool × Option Err)) (s : S)
    → let ran = run (unless f ended >> rest) s in
      ((e : Err) × (ended.1 ≡ some e) × (ran.0.1 ≡ false) × (ran.1 ≡ s))
      ⊎ ((ended.1 ≡ none) × (ran ≡ run rest s))
unless-either f (output, none) rest s = inr (refl, refl)
unless-either f (output, some e) rest s = inl (e, refl, refl, refl)

-- With the cleanup, `RunRemote` either fails to make its workspace, is not ok, and calls nothing
-- after that, or its last call is `rm -rf` of the workspace on the host.
run_remote-removes :
    (machine : Machine) (flags : Flags) (new_aggregate : List Err → Option Err)
    (suite : TestSuite machine.State) (archive host test_args ginkgo_args : String)
    (w : World machine.State)
    → let workspace = (new_workspace_dir machine w).0 in
      let made =
        ssh_no_sudo flags machine host ("mkdir" ∷ workspace ∷ []) (new_workspace_dir machine w).1 in
      let ran =
        run_remote machine flags new_aggregate suite archive host true test_args ginkgo_args w in
      ((e : Err) × (made.0.1 ≡ some e) × (ran.0.1 ≡ false) × (ran.1 ≡ made.1))
      ⊎ ((t : World machine.State) × (ran.1
            ≡ (ssh flags machine host ("rm" ∷ "-rf" ∷ workspace ∷ []) t).1))
unfolding run_remote
run_remote-removes machine flags new_aggregate suite archive host test_args ginkgo_args w =
    let (workspace, w1) = new_workspace_dir machine w in
    let (made, w2) = ssh_no_sudo flags machine host ("mkdir" ∷ workspace ∷ []) w1 in
    let rm = ssh flags machine host ("rm" ∷ "-rf" ∷ workspace ∷ []) in
    let body =
      run_in machine flags new_aggregate suite workspace archive host test_args ginkgo_args in
    elim (unless-either (workspace_error workspace host) made (call (deferring rm body)) w2) [
      | inl failure ↦ inl failure
      | inr (a, ran) ↦ inr ((body w2).1, ap (λ r. r.1) ran)
    ]

module _ (machine : Machine) (flags : Flags) (suite : TestSuite machine.State)
    (instances : Instances machine.State) (poll : Poll (World machine.State)) where
  pub create_instance-name :
      (w : World machine.State)
      → let made = (create_instance machine flags instances poll w).0 in
        (made.0 ≡ instance_name) ⊎ ((e : Err) × (made ≡ ("", some e)))
  unfolding create_instance
  create_instance-name w =
      let (my_uuid, w1) = on machine.new_uuid w in
      elim (Option-cases
        (insert_missing machine flags instances (host_request flags.zone my_uuid) w1).0) [
          | inl a ↦ inl (rw a refl)
          | inr (e, a) ↦ inr (e, rw a refl)
        ]
