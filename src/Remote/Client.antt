-- ===== src/Remote/Client.antt =====
-- `getComputeClient` of test/remote/run_remote/run_remote.go: a loop that tries again.
use compute_persistent_disk.Prelude.{ℕ, zero, suc, ◌*◌, Option, none, some, ltb, if◌then◌else◌}
use compute_persistent_disk.Go.Error.{Err, Answer, answer, refused}
use compute_persistent_disk.Go.Handler.{Action}
use compute_persistent_disk.Cloud.Poll.{second}

-- `google.DefaultClient` and `compute.New`, and the time that passes.
pub record Connection (S : Type 0) : Type 1 where
  pub Client : Type 0
  pub Service : Type 0
  pub default_client : Action S (Answer Client)
  pub new_service : Client → Action S (Answer Service)
  pub sleep : ℕ → Action S (Unit {0})

abbrev pub retries : ℕ
retries = 10

abbrev pub backoff : ℕ
backoff = second * 6

module _ {S : Type 0} (connection : Connection S) where
  -- A round of the loop behind the sleep.
  unfoldable pub attempt_service : Action S (Answer connection.Service)
  attempt_service s =
      let (found, s') = connection.default_client s in
      elim found [ refused e ↦ (refused e, s') | answer client ↦ connection.new_service client s' ]

  -- `if i > 0 { time.Sleep(backoff) }`
  unfoldable pub before_attempt : ℕ → S → S
  before_attempt zero s = s
  before_attempt (suc i) s = (connection.sleep backoff s).1

  -- The loop from a round on, with the last error, on fuel; `none` is that the fuel ran out.
  unfoldable pub attempts :
      ℕ → ℕ → Option Err → Action S (Option (Option connection.Service × Option Err))
  attempts zero i err s = (none, s)
  attempts (suc fuel) i err s =
      let (tried, s') = attempt_service (before_attempt i s) in
      if ltb i retries
      then elim tried [
        | answer cs ↦ (some (some cs, none), s')
        | refused e ↦ attempts fuel (suc i) (some e) s'
      ]
      else (some (none, err), s)

  unfoldable pub get_compute_client : Action S (Option (Option connection.Service × Option Err))
  unfolding attempts
  get_compute_client = attempts (suc retries) 0 none
