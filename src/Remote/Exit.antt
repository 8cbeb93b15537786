-- ===== src/Remote/Exit.antt =====
-- How the remote runner exits.
use compute_persistent_disk.Prelude.{
  ℕ, String, Bool, true, false, Bool-cases, Option-cases, inl, inr, ◌⊎◌, ◌≡◌, ◌≢◌, refl, ap, subst,
  ◌∙◌, Option, none, some, List, [], ◌∷◌, arith,
}
use compute_persistent_disk.Go.Error.{Err, Result, ok, panic, Answer, answer, refused, Answer-cases}
use compute_persistent_disk.Cloud.Poll.{Poll, IsPoll}
use compute_persistent_disk.Remote.{Flags, Machine, World, on}
use compute_persistent_disk.Remote.Archive.{init_e2e_remote}
use compute_persistent_disk.Remote.Client.{Connection, get_compute_client}
use compute_persistent_disk.Remote.Attempts.{
  Ended, connected, gave_up, Failed, none_yet, once_more, get_compute_client-Ended,
}
use compute_persistent_disk.Remote.Hosts.{Instances, instance_name, ginkgo_flags_of}
use compute_persistent_disk.Remote.Provision.{create_instance}
use compute_persistent_disk.Remote.Tests.{test, run_suite}
use compute_persistent_disk.Remote.Up.{Up}
use compute_persistent_disk.Remote.Success.{HostTested, run_suite-HostTested}
use compute_persistent_disk.Remote.Main.{mode_then, main_connected, main, process_of, process}

module _ (machine : Machine) (flags : Flags) (connection : Connection machine.State)
    (compute : connection.Service → Instances machine.State) (poll : Poll (World machine.State))
    (new_aggregate : List Err → Option Err) where
  -- How the runner exits.
  pub data Exited (w : World machine.State) : Result ℕ → Type 0 where
    only_built : flags.build_only ≡ true → Exited w (ok 0)
    all_passed :
        {w1 : World machine.State} (cs : connection.Service)
        → on (get_compute_client connection) w ≡ (some (some cs, none), w1)
        → Up machine flags
            (compute cs)
            instance_name
            (create_instance machine flags (compute cs) poll w1).1
        → HostTested machine flags
            (init_e2e_remote machine flags)
            (compute cs)
            instance_name
            (ginkgo_flags_of flags ("TODO tests" ∷ []))
            (create_instance machine flags (compute cs) poll w1).1
            (test machine flags
              (init_e2e_remote machine flags)
              (compute cs)
              new_aggregate
              poll
              ("TODO tests" ∷ [])
              w1).0.output
        → Exited w (ok 0)
    not_passed :
        {w1 : World machine.State} (cs : connection.Service)
        → on (get_compute_client connection) w ≡ (some (some cs, none), w1)
        → (test machine flags
            (init_e2e_remote machine flags)
            (compute cs)
            new_aggregate
            poll
            ("TODO tests" ∷ [])
            w1).0.exit_ok
          ≡ false
        → Exited w (ok 1)
    no_output :
        {w1 : World machine.State} (cs : connection.Service) (e : Err)
        → on (get_compute_client connection) w ≡ (some (some cs, none), w1)
        → machine.stdout_stat ≡ some e
        → Exited w panic
    not_connected :
        {w1 : World machine.State} (e : Err)
        → on (get_compute_client connection) w ≡ (some (none, some e), w1)
        → Ended connection w.machine (none, some e) w1.machine
        → Exited w (ok 255)

last_error :
    {S : Type 0} {connection : Connection S} {s t : S} {n : ℕ} {last : Option Err}
    → Failed connection s n last t
    → n ≢ 0
    → (e : Err) × (last ≡ some e)
last_error none_yet h = absurd (h refl)
last_error (once_more e f a) h = (e, refl)

client-cases :
    {S : Type 0} {connection : Connection S} {s t : S} {r : Option connection.Service × Option Err}
    → Ended connection s r t
    → ((cs : connection.Service) × (r ≡ (some cs, none))) ⊎ ((e : Err) × (r ≡ (none, some e)))
client-cases (connected cs l f a) = inl (cs, refl)
client-cases (gave_up f) =
    let (e, same) = last_error f (omega arith) in inr (e, λ k. (none, same k))

module _ (machine : Machine) (flags : Flags) (instances : Instances machine.State)
    (poll : Poll (World machine.State)) (new_aggregate : List Err → Option Err)
    (w : World machine.State) where
  abbrev suite_passes : Bool
  suite_passes =
      (test machine flags (init_e2e_remote machine flags) instances new_aggregate poll
        ("TODO tests" ∷ []) w).0.exit_ok

  abbrev suite_status : ℕ
  suite_status =
      (run_suite machine flags (init_e2e_remote machine flags) instances new_aggregate poll w).0

  status_passed : suite_passes ≡ true → suite_status ≡ 0
  unfolding run_suite
  status_passed h = rw h refl

  status_failed : suite_passes ≡ false → suite_status ≡ 1
  unfolding run_suite
  status_failed h = rw h refl

mode_then-none :
    {S : Type 0} {o : Option Err} (ran : ℕ × World S) (w : World S)
    → o ≡ none
    → (mode_then o ran w).0 ≡ ok ran.0
unfolding mode_then
mode_then-none ran w h = rw h refl

mode_then-some :
    {S : Type 0} {o : Option Err} {e : Err} (ran : ℕ × World S) (w : World S)
    → o ≡ some e
    → (mode_then o ran w).0 ≡ panic
unfolding mode_then
mode_then-some ran w h = rw h refl

main-Exited :
    (machine : Machine) (flags : Flags) (connection : Connection machine.State)
    (compute : connection.Service → Instances machine.State) (poll : Poll (World machine.State))
    (new_aggregate : List Err → Option Err) (w : World machine.State)
    → IsPoll poll
    → (result : Result ℕ) × ((main machine flags connection compute poll new_aggregate w).0
        ≡ some result)
      × Exited machine flags connection compute poll new_aggregate w result
unfolding main main_connected
main-Exited machine flags connection compute poll new_aggregate w law =
    let suite = init_e2e_remote machine flags in
    let (r, got, ended) = get_compute_client-Ended connection w.machine in
    let (client, w1) = on (get_compute_client connection) w in
    elim (Bool-cases flags.build_only) [
      | inl a ↦ (ok 0, rw a refl, only_built a)
      | inr a ↦ elim (client-cases ended) [
        | inr (e, same) ↦
            let given : client ≡ some (none, some e) = got ∙ ap some same in
            (
              ok 255,
              rw (a, given) refl,
              not_connected e (λ k. (given k, w1))
                  (subst (λ x. Ended connection w.machine x w1.machine) same ended),
            )
        | inl (cs, same) ↦
            let given : client ≡ some (some cs, none) = got ∙ ap some same in
            let met : on (get_compute_client connection) w ≡ (some (some cs, none), w1) =
              λ k. (given k, w1) in
            let ran = run_suite machine flags suite (compute cs) new_aggregate poll w1 in
            let exit_ok =
              (test machine flags suite (compute cs) new_aggregate poll ("TODO tests" ∷ [])
                w1).0.exit_ok in
            elim (Option-cases machine.stdout_stat) [
              | inr (e, unseen) ↦ (
                panic,
                rw (a, given, mode_then-some ran w1 unseen) refl,
                no_output cs e met unseen,
              )
              | inl seen ↦ elim (Bool-cases exit_ok) [
                | inl b ↦
                    let zero_status =
                      status_passed machine flags (compute cs) poll new_aggregate w1 b in
                    let passed =
                      run_suite-HostTested machine flags suite (compute cs) poll new_aggregate w1
                        law zero_status in
                    (
                      ok 0,
                      rw (a, given, mode_then-none ran w1 seen, zero_status) refl,
                      all_passed cs met passed.1 passed.2,
                    )
                | inr b ↦ (
                  ok 1,
                  rw
                      (
                        a,
                        given,
                        mode_then-none ran w1 seen,
                        status_failed machine flags (compute cs) poll new_aggregate w1 b,
                      )
                      refl,
                  not_passed cs met b,
                )
              ]
            ]
      ]
    ]

-- How the process of the runner ends, its `init` included.
pub data ProcessExited (machine : Machine) (flags : Flags) (connection : Connection machine.State)
    (compute : connection.Service → Instances machine.State) (poll : Poll (World machine.State))
    (new_aggregate : List Err → Option Err) (w : World machine.State) : Result ℕ → Type 0 where
  no_user :
      (e : Err)
      → machine.user_current ≡ refused e
      → ProcessExited machine flags connection compute poll new_aggregate w (ok 255)
  begun :
      {result : Result ℕ} (home_dir : String)
      → machine.user_current ≡ answer home_dir
      → Exited machine
          (record flags { home_dir = home_dir })
          connection
          compute
          poll
          new_aggregate
          w
          result
      → ProcessExited machine flags connection compute poll new_aggregate w result

-- Where the polling is as documented, the process of the remote runner ends, over any machine and
-- cloud: it exits with status 0, 1 or 255, or panics. With 0 it was only to build the archive, or
-- it connected; the instance it made or found was seen running, its address was noted and a
-- command by ssh succeeded on it; from there it was seen running once more, the archive was
-- there, the workspace was made, the archive was copied and extracted, the directory of the
-- results was made, the tests succeeded and their files were brought back, each without an error.
-- With 1 it connected, and the result of the tests is not ok. With 255 the user was not known, or
-- each of its ten attempts to connect failed. It panics where it connected and its standard
-- output cannot be looked at.
pub process-ProcessExited :
    (machine : Machine) (flags : Flags) (connection : Connection machine.State)
    (compute : connection.Service → Instances machine.State) (poll : Poll (World machine.State))
    (new_aggregate : List Err → Option Err) (w : World machine.State)
    → IsPoll poll
    → (result : Result ℕ) × ((process machine flags connection compute poll new_aggregate w).0
        ≡ some result)
      × ProcessExited machine flags connection compute poll new_aggregate w result
unfolding process process_of
process-ProcessExited machine flags connection compute poll new_aggregate w law =
    let ends = λ (u : Answer String).
      (process_of machine flags connection compute poll new_aggregate u w).0 in
    elim (Answer-cases machine.user_current) [
      | inr (e, unknown) ↦ (ok 255, ap ends unknown, no_user e unknown)
      | inl (home_dir, known) ↦
          let (result, same, exited) =
            main-Exited machine (record flags { home_dir = home_dir }) connection compute poll
              new_aggregate w law in
          (result, ap ends known ∙ same, begun home_dir known exited)
    ]
