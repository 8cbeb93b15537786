-- ===== src/Remote/Kept.antt =====
-- What the remote runner keeps of its own variables: an archive that was made, and the addresses of
-- other hosts.
pub mod Actions
pub mod Runs
pub mod Suite
use compute_persistent_disk.Prelude.{
  String, ◌==◌, ◌≡◌, ◌⊎◌, inl, inr, refl, sym, ◌∙◌, Bool, true, false, if◌then◌else◌, Option, none,
  some,
}
use compute_persistent_disk.Go.Error.{Err, Answer, answer, refused}
use compute_persistent_disk.Go.Handler.{
  Action, Body, Flow, next, done, continue, ◌>>=◌, ◌>>◌, on_answer, on_option, give, give_if,
  give_some, call, drop, run,
}
use compute_persistent_disk.Go.Dict.{lookup}
use compute_persistent_disk.Remote.{World, on, deferring}

-- From one state to the other an archive that was made stays, and so do the addresses of all hosts but
-- the one of the name.
abbrev pub Kept : {S : Type 0} → String → World S → World S → Type 0
Kept name w w' =
    ((w.archive ≡ none) ⊎ (w'.archive ≡ w.archive))
    × ((other : String)
        → lookup other w'.hostname_ip_overrides ≡ (
            if name == other
            then lookup other w'.hostname_ip_overrides
            else lookup other w.hostname_ip_overrides))

if_same : {A : Type 0} (b : Bool) (x : A) → x ≡ (if b then x else x)
if_same true x = refl
if_same false x = refl

pub same-Kept : {S : Type 0} (name : String) (w : World S) → Kept name w w
same-Kept name w =
    (inr refl, λ other. if_same (name == other) (lookup other w.hostname_ip_overrides))

archive_trans :
    {A : Type 0} {o o' o'' : Option A}
    → (o ≡ none) ⊎ (o' ≡ o)
    → (o' ≡ none) ⊎ (o'' ≡ o')
    → (o ≡ none) ⊎ (o'' ≡ o)
archive_trans (inl h) k = inl h
archive_trans (inr h) (inl k) = inl (sym h ∙ k)
archive_trans (inr h) (inr k) = inr (k ∙ h)

address_trans :
    {A : Type 0} (b : Bool) (x y z : A)
    → y ≡ (if b then y else x)
    → z ≡ (if b then z else y)
    → z ≡ (if b then z else x)
address_trans true x y z h k = refl
address_trans false x y z h k = k ∙ h

pub trans-Kept :
    {S : Type 0} (name : String) (w w' w'' : World S)
    → Kept name w w'
    → Kept name w' w''
    → Kept name w w''
trans-Kept name w w' w'' (k, l) (k', l') = (
  archive_trans k k',
  λ other.
      address_trans (name == other) (lookup other w.hostname_ip_overrides)
        (lookup other w'.hostname_ip_overrides) (lookup other w''.hostname_ip_overrides) (l other)
        (l' other),
)

-- An action that keeps them.
pub data Keeps {S A : Type 0} (name : String) (m : Action (World S) A) : Type 0 where
  keeps : ((w : World S) → Kept name w (m w).1) → Keeps name m

pub Keeps-Kept :
    {S A : Type 0} {name : String} {m : Action (World S) A}
    → Keeps name m
    → (w : World S) → Kept name w (m w).1
Keeps-Kept (keeps k) = k

continue-Keeps :
    {S R A B : Type 0} (name : String) (r : Flow R A) (f : A → Body (World S) R B)
    → ((a : A) → Keeps name (f a))
    → Keeps name (continue r f)
continue-Keeps name (next a) f k = k a
continue-Keeps name (done r) f k = keeps (same-Kept name)

pub on-Keeps : {S A : Type 0} {name : String} (m : Action S A) → Keeps name (on m)
on-Keeps {name} m = keeps (same-Kept name)

pub give-Keeps : {S R A : Type 0} {name : String} (r : R) → Keeps {S = S} name (give {A = A} r)
give-Keeps {name} r = keeps (same-Kept name)

pub give_if-Keeps :
    {S R : Type 0} {name : String} (b : Bool) (r : R) → Keeps {S = S} name (give_if b r)
give_if-Keeps {name} b r = keeps (same-Kept name)

pub give_some-Keeps :
    {S : Type 0} {name : String} (e : Option Err) → Keeps {S = S} name (give_some e)
give_some-Keeps {name} e = keeps (same-Kept name)

-- A statement, and those behind it.
pub bind-Keeps :
    {S R A B : Type 0} {name : String} {m : Body (World S) R A} {f : A → Body (World S) R B}
    → Keeps name m
    → ((a : A) → Keeps name (f a))
    → Keeps name (m >>= f)
bind-Keeps {name} {m} {f} k l = keeps λ w.
    trans-Kept name w (m w).1 (continue (m w).0 f (m w).1).1 (Keeps-Kept k w)
      (Keeps-Kept (continue-Keeps name (m w).0 f l) (m w).1)

pub then-Keeps :
    {S R B : Type 0} {name : String} {m : Body (World S) R (Unit {0})} {n : Body (World S) R B}
    → Keeps name m
    → Keeps name n
    → Keeps name (m >> n)
then-Keeps {name} {m} {n} k l = bind-Keeps k λ _. l

pub call-Keeps :
    {S R A : Type 0} {name : String} {m : Action (World S) A}
    → Keeps name m
    → Keeps name (call {R = R} m)
call-Keeps k = keeps (Keeps-Kept k)

pub drop-Keeps :
    {S R A : Type 0} {name : String} {m : Action (World S) A}
    → Keeps name m
    → Keeps name (drop {R = R} m)
drop-Keeps k = keeps (Keeps-Kept k)

pub run-Keeps :
    {S R : Type 0} {name : String} {m : Body (World S) R R} → Keeps name m → Keeps name (run m)
run-Keeps k = keeps (Keeps-Kept k)

pub deferring-Keeps :
    {S A B : Type 0} {name : String} {cleanup : Action (World S) B} {body : Action (World S) A}
    → Keeps name cleanup
    → Keeps name body
    → Keeps name (deferring cleanup body)
deferring-Keeps {name} {cleanup} {body} k l = keeps λ w.
    trans-Kept name w (body w).1 (cleanup (body w).1).1 (Keeps-Kept l w) (Keeps-Kept k (body w).1)

-- The ways on from a test.
pub answer-Keeps :
    {S R A B : Type 0} {name : String} (a : Answer A) {f : A → Body (World S) R B}
    {g : Err → Body (World S) R B}
    → ((x : A) → Keeps name (f x))
    → ((e : Err) → Keeps name (g e))
    → Keeps name (on_answer a f g)
answer-Keeps (answer x) k l = k x
answer-Keeps (refused e) k l = l e

pub option-Keeps :
    {S R A B : Type 0} {name : String} (o : Option A) {f : A → Body (World S) R B}
    {m : Body (World S) R B}
    → ((x : A) → Keeps name (f x))
    → Keeps name m
    → Keeps name (on_option o f m)
option-Keeps (some x) k l = k x
option-Keeps none k l = l

pub if-Keeps :
    {S A : Type 0} {name : String} (b : Bool) {m n : Action (World S) A}
    → Keeps name m
    → Keeps name n
    → Keeps name (if b then m else n)
if-Keeps true k l = k
if-Keeps false k l = l

ruleset keeping = (
  on-Keeps, give-Keeps, give_if-Keeps, give_some-Keeps, bind-Keeps, then-Keeps, call-Keeps,
  drop-Keeps, run-Keeps, deferring-Keeps, answer-Keeps, option-Keeps, if-Keeps,
)
