-- ===== src/Remote/Up.antt =====
-- An instance that the remote runner has made is up.
use compute_persistent_disk.Prelude.{
  ◌*◌, String, Bool, true, false, ◌≡◌, refl, ap, [], ◌∷◌, Option, none, arith, Bool-cases,
  Option-cases, inl, inr,
}
use compute_persistent_disk.Go.Error.{Err, answer, Answer-cases}
use compute_persistent_disk.Cloud.Poll.{Poll, IsPoll, met_last, second}
use compute_persistent_disk.Remote.{Flags, Machine, World, on}
use compute_persistent_disk.Remote.Ssh.{ssh_no_sudo}
use compute_persistent_disk.Remote.Hosts.{
  Host, Instances, instance_name, is_running, note_external_ip, host_request,
}
use compute_persistent_disk.Remote.Provision.{insert_missing, instance_up, create_instance}
use compute_persistent_disk.Remote.Passed.{Succeeds}
use compute_persistent_disk.Remote.Passed.{Succeeds}

module _ (machine : Machine) (flags : Flags) (instances : Instances machine.State) where
  -- The cloud gave the instance as running, its address was noted, and a command by ssh went well.
  pub data Up (name : String) : World machine.State → Type 0 where
    up :
        {output : String} {u v after : World machine.State} {h : Host}
        → on (instances.get flags.project flags.zone name) u ≡ (answer h, v)
        → is_running h ≡ true
        → Succeeds
            (ssh_no_sudo flags machine name ("echo" ∷ []))
            (note_external_ip name h v).1
            output
            after
        → Up name after

  unmet :
      {u t : World machine.State}
      → ◌≡◌ {A = (Bool × Option Err) × World machine.State} ((false, none), u) ((true, none), t)
      → ⊥
  unmet e = ground (arith, ap (λ (r : (Bool × Option Err) × World machine.State). r.0.0) e)

  instance_up-Up :
      (name : String) (u t : World machine.State)
      → instance_up machine flags instances name u ≡ ((true, none), t)
      → Up name t
  unfolding instance_up
  instance_up-Up name u t h =
      let (got, v) = on (instances.get flags.project flags.zone name) u in
      elim (Answer-cases got) [
        | inr (failure, a) ↦ absurd (unmet (rw a at h))
        | inl (instance', a) ↦ elim (Bool-cases (is_running instance')) [
          | inr b ↦ absurd (unmet (rw (a, b) at h))
          | inl b ↦
              let noted = (note_external_ip name instance' v).1 in
              let (echoed, after) = ssh_no_sudo flags machine name ("echo" ∷ []) noted in
              elim (Option-cases echoed.1) [
                | inr (failure, c) ↦ absurd (unmet (rw (a, b, c) at h))
                | inl c ↦
                    let last = rw (a, b, c) at h in
                    up {output = echoed.0} (λ k. (a k, v)) b (λ k. ((echoed.0, c k), (last k).1))
              ]
        ]
      ]

  module _ (poll : Poll (World machine.State)) where
    pub create_instance-Up :
        (w : World machine.State)
        → let made = create_instance machine flags instances poll w in
          IsPoll poll → made.0.1 ≡ none → (made.0.0 ≡ instance_name) × Up instance_name made.1
    unfolding create_instance
    create_instance-Up w law h =
        let (my_uuid, w1) = on machine.new_uuid w in
        let (failure, w2) =
          insert_missing machine flags instances (host_request flags.zone my_uuid) w1 in
        let condition = instance_up machine flags instances instance_name in
        elim (Option-cases failure) [
          | inr (e, a) ↦ absurd (ground (arith, rw a at h))
          | inl a ↦
              let (u, last) =
                met_last (law (15 * second) (10 * 60 * second) condition w2) (rw a at h) in
              rw a (refl, instance_up-Up instance_name u _ last)
        ]
