-- ===== src/Go/Error.antt =====
-- Go's `error` values, and what a function that may fail returns.
use compute_persistent_disk.Prelude.{
  ℕ, String, Bool, true, false, ◌≡◌, refl, ◌⊎◌, inl, inr, List, Option, none, some,
}
use compute_persistent_disk.Prelude.Int.{ℤ}

-- The codes of `google.golang.org/grpc/codes` that the driver gives.
pub data Code : Type 0 where
  invalid_argument not_found already_exists failed_precondition internal unavailable : Code
  unimplemented : Code

-- An error is what the driver can tell of it: how it was made, and for the errors of other
-- packages the class that the driver tests for. A message is its format with its arguments.
mutual
  pub data Err : Type 0 where
    -- `status.Error(code, fmt.Sprintf(format, args...))`
    status : Code → String → Args → Err
    -- `fmt.Errorf(format, args...)`
    errorf : String → Args → Err
    -- a `*googleapi.Error` with the reasons of its `Errors`
    api : List String → Err
    -- an error for which `os.IsNotExist` holds
    not_exist : Err
    -- an `exec.ExitError` with its status
    exit_error : ℕ → Err
    -- `exec.ErrExecutableNotFound`
    executable_not_found : Err
    -- any other error of another package, with its text
    foreign : String → Err

  pub data Args : Type 0 where
    end : Args
    str : String → Args → Args
    strs : List String → Args → Args
    number : ℤ → Args → Args
    error : Err → Args → Args

-- `(value, error)` where the value is of no use beside an error. `panic` is a runtime panic.
pub data Result {ℓ} (A : Type ℓ) : Type ℓ where
  ok : A → Result A
  err : Err → Result A
  panic : Result A

-- What a call of another package returns: a value or an error. Of the two, exactly one is not nil.
pub data Answer {ℓ} (A : Type ℓ) : Type ℓ where
  answer : A → Answer A
  refused : Err → Answer A

-- `os.IsNotExist(err)`
abbrev pub is_not_exist : Err → Bool
is_not_exist not_exist = true
is_not_exist _ = false

-- What an RPC returns: a response, which may be nil, with an error, which may be nil.
pub data Reply {ℓ} (A : Type ℓ) : Type ℓ where
  reply : Option A → Option Err → Reply A
  panicked : Reply A

abbrev pub respond {ℓ} : {A : Type ℓ} → A → Reply A
respond a = reply (some a) none

abbrev pub fail {ℓ} : {A : Type ℓ} → Err → Reply A
fail e = reply none (some e)

-- `status.Error(code, message)`
abbrev pub status_error : Code → String → Err
status_error c message = status c message end

-- The code of a reply that is an error made by `status.Error`, with no response beside it.
abbrev pub code_of {ℓ} : {A : Type ℓ} → Reply A → Option Code
code_of (reply none (some (status c message args))) = some c
code_of _ = none

-- To split on a result and keep the equation.
pub data Outcome {ℓ} {A : Type ℓ} (r : Result A) : Type ℓ where
  is_ok : (a : A) → r ≡ ok a → Outcome r
  is_err : (e : Err) → r ≡ err e → Outcome r
  is_panic : r ≡ panic → Outcome r

pub Outcome-of {ℓ} : {A : Type ℓ} (r : Result A) → Outcome r
Outcome-of (ok a) = is_ok a refl
Outcome-of (err e) = is_err e refl
Outcome-of panic = is_panic refl

pub Answer-cases {ℓ} :
    {A : Type ℓ} (a : Answer A) → ((x : A) × (a ≡ answer x)) ⊎ ((e : Err) × (a ≡ refused e))
Answer-cases (answer x) = inl (x, refl)
Answer-cases (refused e) = inr (e, refl)
