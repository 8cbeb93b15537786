-- ===== src/Cloud/Poll.antt =====
-- `wait.Poll` and `wait.PollImmediate` of k8s.io/apimachinery, which are parameters.
use compute_persistent_disk.Prelude.{ℕ, Bool, true, false, ◌≡◌, Option, none, some}
use compute_persistent_disk.Go.Error.{Err}
use compute_persistent_disk.Go.Handler.{Action}

-- `wait.Poll(interval, timeout, condition)`, the durations in nanoseconds.
abbrev pub Poll : Type 0 → Type 0
Poll S = ℕ → ℕ → Action S (Bool × Option Err) → Action S (Option Err)

abbrev pub second : ℕ
second = 1_000_000_000

-- What the documentation of `wait.Poll` says of it: it runs the condition until this returns true
-- or an error, or until the time is over, and at least once.
pub data Polled {S : Type 0} (condition : Action S (Bool × Option Err))
    : S → Option Err → S → Type 0 where
  met : {s s' : S} → condition s ≡ ((true, none), s') → Polled condition s none s'
  failed :
      {s s' : S} {b : Bool} {e : Err}
      → condition s ≡ ((b, some e), s')
      → Polled condition s (some e) s'
  over : {s s' : S} (e : Err) → condition s ≡ ((false, none), s') → Polled condition s (some e) s'
  again :
      {s s' t : S} {r : Option Err}
      → condition s ≡ ((false, none), s')
      → Polled condition s' r t
      → Polled condition s r t

abbrev pub IsPoll : {S : Type 0} → Poll S → Type 0
IsPoll {S} poll =
    (interval timeout : ℕ) (condition : Action S (Bool × Option Err)) (s : S)
    → Polled condition s (poll interval timeout condition s).0 (poll interval timeout condition s).1

-- A poll that ends with no error has met the condition in its last round.
pub met_last :
    {S : Type 0} {condition : Action S (Bool × Option Err)} {s t : S} {r : Option Err}
    → Polled condition s r t
    → r ≡ none
    → (u : S) × (condition u ≡ ((true, none), t))
met_last {s} (met h) e = (s, h)
met_last (failed h) e = cc
met_last (over _ h) e = cc
met_last (again h p) e = met_last p e
