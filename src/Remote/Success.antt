-- ===== src/Remote/Success.antt =====
-- What an exit status of the remote runner that is zero says: the instance and the tests on it.
use compute_persistent_disk.Prelude.{
  String, Bool, true, not, ◌≡◌, refl, sym, subst, List, [], ◌∷◌, Option, none, some, arith,
  Bool-cases, inl, inr, ◌&&◌,
}
use compute_persistent_disk.Go.Error.{Err, answer, Answer-cases}
use compute_persistent_disk.Cloud.Poll.{Poll, IsPoll}
use compute_persistent_disk.Remote.{Flags, Machine, World, TestSuite, on}
use compute_persistent_disk.Remote.Hosts.{
  Host, Instances, instance_name, is_running, note_external_ip, ginkgo_flags_of,
}
use compute_persistent_disk.Remote.Provision.{create_instance}
use compute_persistent_disk.Remote.Tests.{
  get_archive, run_archived, test_host, test_created, test, run_suite,
}
use compute_persistent_disk.Remote.Passed.{Succeeds, Tested, run_remote-Tested}
use compute_persistent_disk.Remote.Up.{Up, create_instance-Up}

module _ (machine : Machine) (flags : Flags) (suite : TestSuite machine.State)
    (instances : Instances machine.State) where
  -- The archive was there or was made in a state, and a run of the tests on the host with it went well.
  pub data ArchiveTested (host ginkgo_args : String) (w : World machine.State)
      : String → Type 0 where
    archive_tested :
        {path output : String} {v : World machine.State}
        → Succeeds (get_archive machine flags suite instances) w path v
        → Tested machine flags suite host ginkgo_args path v output
        → ArchiveTested host ginkgo_args w output

  -- From a state on, the cloud gave the host as running, its address was noted, and the tests went well
  -- on it.
  pub data HostTested (host ginkgo_args : String) (w : World machine.State) : String → Type 0 where
    host_tested :
        {output : String} {v : World machine.State} {h : Host}
        → on (instances.get flags.project flags.zone host) w ≡ (answer h, v)
        → is_running h ≡ true
        → ArchiveTested host ginkgo_args (note_external_ip host h v).1 output
        → HostTested host ginkgo_args w output

  module _ (new_aggregate : List Err → Option Err) where
    archived-Tested :
        (host ginkgo_flags_str : String) (delete_files : Bool) (u : World machine.State)
        (archive : String × Option Err) (v : World machine.State)
        → get_archive machine flags suite instances u ≡ (archive, v)
        → let ended =
            (run_archived machine flags suite instances new_aggregate host delete_files
              ginkgo_flags_str archive v).0 in
          ended.exit_ok ≡ true → ArchiveTested host ginkgo_flags_str u ended.output
    unfolding run_archived
    archived-Tested host ginkgo_flags_str delete_files u (path, none) v e h = archive_tested e (
        run_remote-Tested machine flags new_aggregate suite path host ginkgo_flags_str delete_files
          v h)
    archived-Tested host ginkgo_flags_str delete_files u (path, some failure) v e h =
        absurd (ground (arith, h))

    test_host-Tested :
        (host ginkgo_flags_str : String) (delete_files : Bool) (w : World machine.State)
        → let ended =
            (test_host machine flags suite instances new_aggregate host delete_files
              ginkgo_flags_str w).0 in
          ended.exit_ok ≡ true → HostTested host ginkgo_flags_str w ended.output
    unfolding test_host
    test_host-Tested host ginkgo_flags_str delete_files w h =
        let (got, w1) = on (instances.get flags.project flags.zone host) w in
        elim (Answer-cases got) [
          | inr (failure, a) ↦ absurd (ground (arith, rw a at h))
          | inl (instance', a) ↦ elim (Bool-cases (is_running instance')) [
            | inr b ↦ absurd (ground (arith, rw (a, b) at h))
            | inl b ↦
                let noted = (note_external_ip host instance' w1).1 in
                let (archive, w2) = get_archive machine flags suite instances noted in
                rw (a, b)
                  (host_tested (λ k. (a k, w1)) b
                    (archived-Tested host ginkgo_flags_str delete_files noted archive w2 refl
                      (rw (a, b) at h)))
          ]
        ]

  module _ (poll : Poll (World machine.State)) where
    module _ (new_aggregate : List Err → Option Err) where
      test_created-Tested :
          (ginkgo_flags_str host : String) (failure : Option Err) (w : World machine.State)
          → let ended =
              (test_created machine flags suite instances new_aggregate poll ginkgo_flags_str host
                failure w).0 in
            ended.exit_ok ≡ true
            → (failure ≡ none) × HostTested host ginkgo_flags_str w ended.output
      unfolding test_created
      test_created-Tested ginkgo_flags_str host none w h = (
        refl,
        test_host-Tested new_aggregate host ginkgo_flags_str
            (not flags.delete_instances && flags.cleanup) w h,
      )
      test_created-Tested ginkgo_flags_str host (some e) w h = absurd (ground (arith, h))

      same_result :
          (tests : List String) (w : World machine.State)
          → let (made, w1) = create_instance machine flags instances poll w in
            (test machine flags suite instances new_aggregate poll tests w).0
            ≡ (test_created machine flags suite instances new_aggregate poll
                (ginkgo_flags_of flags tests)
                made.0
                made.1
                w1).0
      unfolding test
      same_result tests w = elim (Bool-cases flags.delete_instances) [
        | inl a ↦ rw a refl
        | inr a ↦ rw a refl
      ]

      test-Tested :
          (tests : List String) (w : World machine.State)
          → let made = create_instance machine flags instances poll w in
            let ended = (test machine flags suite instances new_aggregate poll tests w).0 in
            IsPoll poll
            → ended.exit_ok ≡ true
            → (made.0 ≡ (instance_name, none))
              × Up machine flags instances instance_name made.1
              × HostTested instance_name (ginkgo_flags_of flags tests) made.1 ended.output
      test-Tested tests w law h =
          let (made, w1) = create_instance machine flags instances poll w in
          let flags_str = ginkgo_flags_of flags tests in
          let same = same_result tests w in
          let (no_failure, done) =
            test_created-Tested flags_str made.0 made.1 w1 (subst (λ r. r.exit_ok ≡ true) same h) in
          let (name, is_up) = create_instance-Up machine flags instances poll w law no_failure in
          (
            λ k. (name k, no_failure k),
            is_up,
            subst
                (λ n.
                  HostTested n flags_str w1
                    (test machine flags suite instances new_aggregate poll tests w).0.output)
                name (subst (λ r. HostTested made.0 flags_str w1 r.output) (sym same) done),
          )

pub run_suite-HostTested :
    (machine : Machine) (flags : Flags) (suite : TestSuite machine.State)
    (instances : Instances machine.State) (poll : Poll (World machine.State))
    (new_aggregate : List Err → Option Err) (w : World machine.State)
    → let made = create_instance machine flags instances poll w in
      let ended = (test machine flags suite instances new_aggregate poll ("TODO tests" ∷ []) w).0 in
      IsPoll poll
      → (run_suite machine flags suite instances new_aggregate poll w).0 ≡ 0
      → (made.0 ≡ (instance_name, none))
        × Up machine flags instances instance_name made.1
        × HostTested machine flags suite instances instance_name
            (ginkgo_flags_of flags ("TODO tests" ∷ []))
            made.1
            ended.output
unfolding run_suite
run_suite-HostTested machine flags suite instances poll new_aggregate w law h =
    let ended = (test machine flags suite instances new_aggregate poll ("TODO tests" ∷ []) w).0 in
    elim (Bool-cases ended.exit_ok) [
      | inl a ↦
          test-Tested machine flags suite instances poll new_aggregate ("TODO tests" ∷ []) w law a
      | inr a ↦ absurd (let bad : 1 ≡ 0 = rw a at h in omega (arith, bad))
    ]
