-- ===== src/Remote/Passed.antt =====
-- What an exit status of the remote runner that is zero says: `RunRemote` and what it calls.
use compute_persistent_disk.Prelude.{
  String, ◌<>◌, if◌then◌else◌, Bool, true, false, ◌≡◌, refl, ap, sym, subst, ◌∙◌, List, [], ◌∷◌,
  Option, none, some, arith, is_empty,
}
use compute_persistent_disk.Go.Error.{Err}
use compute_persistent_disk.Go.Handler.{Action, ◌>>◌, call, run}
use compute_persistent_disk.Go.Path.{join_path}
use compute_persistent_disk.Remote.{Flags, Machine, World, TestSuite, deferring}
use compute_persistent_disk.Remote.Ssh.{ssh, ssh_no_sudo}
use compute_persistent_disk.Remote.Workspace.{new_workspace_dir}
use compute_persistent_disk.Remote.Run.{
  run_remote, workspace_error, unless, collected, extraction, copy_error, extract_error,
  result_dir_error, run_in, run_copied, run_extracted, run_tests,
}
use compute_persistent_disk.Remote.Artifacts.{scp, remote_path, get_test_artifacts}

-- An action whose error is nil, with its other value and the state behind it.
abbrev pub Succeeds : {S : Type 0} → Action S (String × Option Err) → S → String → S → Type 0
Succeeds m s output t = m s ≡ ((output, none), t)

-- A function that ends well has gone on behind each of its commands.
pub past :
    {S : Type 0} (m : Action S (String × Option Err)) (f : Err → String → Err)
    (rest : Action S (String × Bool × Option Err)) (s : S)
    → (run (unless f (m s).0 >> call rest) (m s).1).0.1 ≡ true
    → ((output : String) × (t : S) × Succeeds m s output t
        × (run (unless f (m s).0 >> call rest) (m s).1 ≡ rest t))
past {S} m f rest s h = go (m s) refl h
  where
    go :
        (r : (String × Option Err) × S)
        → m s ≡ r
        → (run (unless f r.0 >> call rest) r.1).0.1 ≡ true
        → ((output : String) × (t : S) × Succeeds m s output t
            × (run (unless f r.0 >> call rest) r.1 ≡ rest t))
    go ((output, none), t) e h = (output, t, e, refl)
    go ((output, some failure), t) e h = absurd (ground (arith, h))

no_errors :
    (e scp_err : Option Err)
    → is_empty (collected scp_err (collected e [])) ≡ true
    → (e ≡ none) × (scp_err ≡ none)
no_errors none none h = (refl, refl)
no_errors none (some b) h = absurd (ground (arith, h))
no_errors (some a) none h = absurd (ground (arith, h))
no_errors (some a) (some b) h = absurd (ground (arith, h))

module _ (machine : Machine) (flags : Flags) (suite : TestSuite machine.State)
    (workspace host test_args ginkgo_args : String) where
  -- The commands of `RunRemote` in the workspace, one behind the other, without an error.
  pub data Ran (archive : String) (s : World machine.State)
      : String → World machine.State → Type 0 where
    ran :
        {copied extracted made output : String} {s1 s2 s3 s4 t : World machine.State}
        → Succeeds
            (scp machine flags
              λ w. archive ∷ remote_path machine flags w host (workspace <> "/") ∷ [])
            s
            copied
            s1
        → Succeeds (ssh_no_sudo flags machine host (extraction workspace)) s1 extracted s2
        → Succeeds
            (ssh_no_sudo flags machine host ("mkdir" ∷ join_path workspace "results" ∷ []))
            s2
            made
            s3
        → Succeeds
            (suite.run_test host workspace
              (join_path workspace "results")
              test_args
              ginkgo_args
              flags.test_timeout)
            s3
            output
            s4
        → get_test_artifacts machine flags host workspace s4 ≡ (none, t)
        → Ran archive s output t

  module _ (new_aggregate : List Err → Option Err) where
    tests_ran :
        (s : World machine.State)
        → let results = join_path workspace "results" in
          let tests =
            suite.run_test host workspace results test_args ginkgo_args flags.test_timeout in
          let ended =
            run_tests machine flags new_aggregate suite workspace results host test_args ginkgo_args
              s in
          ended.0.1 ≡ true
          → (s4 : World machine.State) × Succeeds tests s ended.0.0 s4
            × (get_test_artifacts machine flags host workspace s4 ≡ (none, ended.1))
    unfolding run_tests
    tests_ran s h =
        let (ended, s4) =
          suite.run_test host workspace (join_path workspace "results") test_args ginkgo_args
            flags.test_timeout s in
        let (scp_err, t) = get_test_artifacts machine flags host workspace s4 in
        let (e, no_scp) = no_errors ended.1 scp_err h in
        (s4, λ k. ((ended.0, e k), s4), λ k. (no_scp k, t))

    pub run_in-Ran :
        (archive : String) (s : World machine.State)
        → let ended =
            run_in machine flags new_aggregate suite workspace archive host test_args ginkgo_args
              s in
          ended.0.1 ≡ true → Ran archive s ended.0.0 ended.1
    unfolding run_in run_copied run_extracted
    run_in-Ran archive s h =
        let copy =
          scp machine flags
            λ w. archive ∷ remote_path machine flags w host (workspace <> "/") ∷ [] in
        let (copied, s1, e1, h1) =
          past copy copy_error
            (run_copied machine flags new_aggregate suite workspace host test_args ginkgo_args) s
            h in
        let (extracted, s2, e2, h2) =
          past (ssh_no_sudo flags machine host (extraction workspace)) extract_error
            (run_extracted machine flags new_aggregate suite workspace host test_args ginkgo_args)
            s1 (subst (λ r. r.0.1 ≡ true) h1 h) in
        let (made, s3, e3, h3) =
          past (ssh_no_sudo flags machine host ("mkdir" ∷ join_path workspace "results" ∷ []))
            (result_dir_error (join_path workspace "results") host)
            (run_tests machine flags new_aggregate suite workspace (join_path workspace "results")
              host test_args ginkgo_args)
            s2 (subst (λ r. r.0.1 ≡ true) (h1 ∙ h2) h) in
        let (s4, e4, e5) = tests_ran s3 (subst (λ r. r.0.1 ≡ true) (h1 ∙ h2 ∙ h3) h) in
        subst (λ r. Ran archive s r.0.0 r.1) (sym (h1 ∙ h2 ∙ h3)) (ran e1 e2 e3 e4 e5)

-- A run of the tests on a host that made its workspace, and went well in it.
pub data Tested (machine : Machine) (flags : Flags) (suite : TestSuite machine.State)
    (host ginkgo_args archive : String) (w : World machine.State) : String → Type 0 where
  tested :
      {workspace made output : String} {w1 s t : World machine.State}
      → new_workspace_dir machine w ≡ (workspace, w1)
      → Succeeds (ssh_no_sudo flags machine host ("mkdir" ∷ workspace ∷ [])) w1 made s
      → Ran machine flags suite workspace host flags.test_args ginkgo_args archive s output t
      → Tested machine flags suite host ginkgo_args archive w output

cleaned :
    {S : Type 0} {A B : Type 0} (b : Bool) (rm : Action S B) (body : Action S A) (s : S)
    → ((if b then deferring rm body else body) s).0 ≡ (body s).0
cleaned true rm body s = refl
cleaned false rm body s = refl

pub run_remote-Tested :
    (machine : Machine) (flags : Flags) (new_aggregate : List Err → Option Err)
    (suite : TestSuite machine.State) (archive host ginkgo_args : String) (cleanup : Bool)
    (w : World machine.State)
    → let ended =
        (run_remote machine flags new_aggregate suite archive host cleanup flags.test_args
          ginkgo_args w).0 in
      ended.1 ≡ true → Tested machine flags suite host ginkgo_args archive w ended.0
unfolding run_remote
run_remote-Tested machine flags new_aggregate suite archive host ginkgo_args cleanup w h =
    let (workspace, w1) = new_workspace_dir machine w in
    let rm = ssh flags machine host ("rm" ∷ "-rf" ∷ workspace ∷ []) in
    let body =
      run_in machine flags new_aggregate suite workspace archive host flags.test_args ginkgo_args in
    let (made, s, e, goes_on) =
      past (ssh_no_sudo flags machine host ("mkdir" ∷ workspace ∷ []))
        (workspace_error workspace host) (if cleanup then deferring rm body else body) w1 h in
    let same = ap (λ r. r.0) goes_on ∙ cleaned cleanup rm body s in
    subst (λ r. Tested machine flags suite host ginkgo_args archive w r.0) (sym same)
      (tested refl e (
        run_in-Ran machine flags suite workspace host flags.test_args ginkgo_args new_aggregate
          archive s (subst (λ r. r.1 ≡ true) same h)))
