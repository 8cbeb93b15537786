-- ===== src/Remote/Kept/Suite.antt =====
-- A whole run of the remote runner keeps its variables.
use compute_persistent_disk.Prelude.{
  ◌*◌, String, ◌≡◌, sym, subst, ◌⊎◌, List, [], ◌∷◌, Option, none, some, inl, inr,
}
use compute_persistent_disk.Go.Error.{Err}
use compute_persistent_disk.Cloud.Poll.{Poll, IsPoll, second}
use compute_persistent_disk.Remote.{Flags, Machine, World}
use compute_persistent_disk.Remote.Archive.{init_e2e_remote}
use compute_persistent_disk.Remote.Hosts.{Instances, instance_name, ginkgo_flags_of}
use compute_persistent_disk.Remote.Provision.{instance_up, create_instance}
use compute_persistent_disk.Remote.Tests.{test_created, test, run_suite}
use compute_persistent_disk.Remote.Cleanup.{create_instance-name}
use compute_persistent_disk.Remote.Kept.{
  Kept, Keeps, keeps, Keeps-Kept, same-Kept, trans-Kept, if-Keeps, deferring-Keeps, keeping,
}
use compute_persistent_disk.Remote.Kept.Runs.{
  Polled-Kept, instance_up-Keeps, insert_missing-Keeps, delete_instance-Keeps, delete_archive-Keeps,
  collect_serial_log-Keeps, test_host-Keeps,
}

module _ (machine : Machine) (flags : Flags) (instances : Instances machine.State)
    (poll : Poll (World machine.State)) where
  create_instance-Keeps :
      IsPoll poll → Keeps instance_name (create_instance machine flags instances poll)
  unfolding create_instance
  create_instance-Keeps law =
      let condition = instance_up machine flags instances instance_name in
      let polled : Keeps instance_name (poll (15 * second) (10 * 60 * second) condition) =
        keeps λ w.
          Polled-Kept instance_name condition
            (instance_up-Keeps machine flags instances instance_name)
            (law (15 * second) (10 * 60 * second) condition w) in
      search (keeping, insert_missing-Keeps, polled) depth 30

  module _ (new_aggregate : List Err → Option Err) where
    test_created-Keeps :
        (name ginkgo_args : String) (e : Option Err)
        → Keeps name (
            test_created machine flags
              (init_e2e_remote machine flags)
              instances
              new_aggregate
              poll
              ginkgo_args
              name
              e)
    unfolding test_created
    test_created-Keeps name ginkgo_args none =
        search (keeping, test_host-Keeps, collect_serial_log-Keeps) depth 30
    test_created-Keeps name ginkgo_args (some e) = keeps (same-Kept name)

    created-Keeps :
        (ginkgo_args : String) (made : String × Option Err)
        → (made.0 ≡ instance_name) ⊎ ((e : Err) × (made ≡ ("", some e)))
        → Keeps instance_name (
            test_created machine flags
              (init_e2e_remote machine flags)
              instances
              new_aggregate
              poll
              ginkgo_args
              made.0
              made.1)
    unfolding test_created
    created-Keeps ginkgo_args made (inl same) =
        subst
          (λ n. Keeps instance_name (
            test_created machine flags (init_e2e_remote machine flags) instances new_aggregate poll
              ginkgo_args n made.1))
          (sym same) (test_created-Keeps instance_name ginkgo_args made.1)
    created-Keeps ginkgo_args made (inr (e, same)) =
        subst
          (λ m. Keeps instance_name (
            test_created machine flags (init_e2e_remote machine flags) instances new_aggregate poll
              ginkgo_args m.0 m.1))
          (sym same) (keeps (same-Kept instance_name))

    test-Kept :
        (tests : List String) (w : World machine.State)
        → IsPoll poll
        → Kept instance_name w
            (test machine flags
              (init_e2e_remote machine flags)
              instances
              new_aggregate
              poll
              tests
              w).1
    unfolding test
    test-Kept tests w law =
        let suite = init_e2e_remote machine flags in
        let (made, w1) = create_instance machine flags instances poll w in
        let body =
          created-Keeps (ginkgo_flags_of flags tests) made
            (create_instance-name machine flags suite instances poll w) in
        let rest =
          if-Keeps flags.delete_instances
            (deferring-Keeps (delete_instance-Keeps machine flags instances instance_name made.0)
              body)
            body in
        let (result, after) = test machine flags suite instances new_aggregate poll tests w in
        trans-Kept instance_name w w1 after (Keeps-Kept (create_instance-Keeps law) w)
          (Keeps-Kept rest w1)

    test-Keeps :
        (tests : List String)
        → IsPoll poll
        → Keeps instance_name
            (test machine flags (init_e2e_remote machine flags) instances new_aggregate poll tests)
    test-Keeps tests law = keeps λ w. test-Kept tests w law

    run_suite-Keeps :
        IsPoll poll
        → Keeps instance_name
            (run_suite machine flags (init_e2e_remote machine flags) instances new_aggregate poll)
    unfolding run_suite
    run_suite-Keeps law =
        let tested = test-Keeps ("TODO tests" ∷ []) law in
        search (keeping, delete_archive-Keeps, tested) depth 30

-- With the suite of the driver, and where the polling is as documented, a run of the remote
-- runner from any state keeps the variables of its packages: an archive that was made stays the
-- one that is given, and the addresses of all hosts but the instance of the runner stay as they
-- are.
pub run_suite-Kept :
    (machine : Machine) (flags : Flags) (instances : Instances machine.State)
    (poll : Poll (World machine.State)) (new_aggregate : List Err → Option Err)
    (w : World machine.State)
    → IsPoll poll
    → Kept instance_name w
        (run_suite machine flags (init_e2e_remote machine flags) instances new_aggregate poll w).1
run_suite-Kept machine flags instances poll new_aggregate w law =
    Keeps-Kept (run_suite-Keeps machine flags instances poll new_aggregate law) w
