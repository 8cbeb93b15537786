-- ===== src/Go/Handler.antt =====
-- Functions that act on an external system and may return early.
use compute_persistent_disk.Prelude.{Bool, true, false, Option, none, some}
use compute_persistent_disk.Go.Error.{
  Err, Answer, answer, refused, Result, ok, err, panic, Reply, panicked, fail,
}

-- A call changes the system's state and returns a value.
abbrev pub Action : Type 0 → Type 0 → Type 0
Action S A = S → A × S

-- After a statement a function goes on with a value, or it has returned.
pub data Flow (R A : Type 0) : Type 0 where
  next : A → Flow R A
  done : R → Flow R A

-- A function body ends by a `return`.
abbrev pub returned : {R : Type 0} → Flow R R → R
returned (next r) = r
returned (done r) = r

-- Goes on with the value, or returns the error as `f` puts it.
abbrev pub settle : {R A : Type 0} → Result A → (Err → Err) → Flow (Reply R) A
settle (ok a) f = next a
settle (err e) f = done (fail (f e))
settle panic f = done panicked

-- The flow after a test, and after an error that ends the function where it is not nil.
abbrev pub stop_if : {R : Type 0} → Bool → R → Flow R (Unit {0})
stop_if true r = done r
stop_if false r = next tt

abbrev pub stop_error : {A : Type 0} → Option Err → Flow (Reply A) (Unit {0})
stop_error none = next tt
stop_error (some e) = done (fail e)

abbrev pub stop_some : Option Err → Flow (Option Err) (Unit {0})
stop_some none = next tt
stop_some (some e) = done (some e)

-- A stretch of a function body that returns an `R`.
abbrev pub Body : Type 0 → Type 0 → Type 0 → Type 0
Body S R A = S → Flow R A × S

module _ {S R : Type 0} where
  abbrev pub continue : {A B : Type 0} → Flow R A → (A → Body S R B) → Body S R B
  continue (next a) f s = f a s
  continue (done r) f s = (done r, s)

  infixl 5 ◌>>=◌ ◌>>◌
  abbrev pub ◌>>=◌ : {A B : Type 0} → Body S R A → (A → Body S R B) → Body S R B
  ◌>>=◌ m f s = let (r, s') = m s in continue r f s'

  abbrev pub ◌>>◌ : {B : Type 0} → Body S R (Unit {0}) → Body S R B → Body S R B
  m >> n = m >>= λ _. n

  -- `return r`
  abbrev pub give : {A : Type 0} → R → Body S R A
  give r s = (done r, s)

  -- `if b { return r }`
  abbrev pub give_if : Bool → R → Body S R (Unit {0})
  give_if b r s = (stop_if b r, s)

  -- The ways on from an answer, and from a pointer or an error that may be nil.
  abbrev pub on_answer :
      {A B : Type 0} → Answer A → (A → Body S R B) → (Err → Body S R B) → Body S R B
  on_answer (answer a) f g = f a
  on_answer (refused e) f g = g e

  abbrev pub on_option : {A B : Type 0} → Option A → (A → Body S R B) → Body S R B → Body S R B
  on_option (some a) f m = f a
  on_option none f m = m

  -- A call whose value the rest of the body uses.
  abbrev pub call : {A : Type 0} → Action S A → Body S R A
  call m s = let (a, s') = m s in (next a, s')

  -- A call whose value is not used.
  abbrev pub drop : {A : Type 0} → Action S A → Body S R (Unit {0})
  drop m s = let (a, s') = m s in (next tt, s')

  abbrev pub run : Body S R R → Action S R
  run m s = let (f, s') = m s in (returned f, s')

module _ {S R A : Type 0} where
  -- `a, err := m; if err != nil { return nil, f(err) }`
  abbrev pub attempt : Action S (Result A) → (Err → Err) → Body S (Reply R) A
  attempt m f s = let (r, s') = m s in (settle r f, s')

  -- The same, where the call has no effect.
  abbrev pub require : Result A → (Err → Err) → Body S (Reply R) A
  require r f s = (settle r f, s)

module _ {S A : Type 0} where
  -- `if err != nil { return nil, err }`
  abbrev pub give_error : Option Err → Body S (Reply A) (Unit {0})
  give_error e s = (stop_error e, s)

module _ {S : Type 0} where
  -- `if err != nil { return err }`
  abbrev pub give_some : Option Err → Body S (Option Err) (Unit {0})
  give_some e s = (stop_some e, s)
