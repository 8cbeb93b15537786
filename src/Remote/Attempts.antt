-- ===== src/Remote/Attempts.antt =====
-- The loop of `getComputeClient` ends.
use compute_persistent_disk.Prelude.{
  ℕ, zero, suc, ◌+◌, ◌<◌, ◌≤◌, subst, ◌≡◌, inl, inr, refl, Option, none, some, arith, ltb,
  Bool-cases,
}
use compute_persistent_disk.Go.Error.{Err, answer, refused, Answer-cases}
use compute_persistent_disk.Remote.Client.{
  Connection, retries, attempt_service, before_attempt, attempts, get_compute_client,
}

module _ {S : Type 0} (connection : Connection S) where
  -- So many attempts failed one after another, with the sleeps between them; the last error is given.
  pub data Failed (s : S) : ℕ → Option Err → S → Type 0 where
    none_yet : Failed s 0 none s
    once_more :
        {i : ℕ} {last : Option Err} {t u : S} (e : Err)
        → Failed s i last t
        → attempt_service connection (before_attempt connection i t) ≡ (refused e, u)
        → Failed s (suc i) (some e) u

  -- The first attempt that succeeds gives the service; after the last one its error is returned.
  pub data Ended (s : S) : Option connection.Service × Option Err → S → Type 0 where
    connected :
        {i : ℕ} {last : Option Err} {t u : S} (cs : connection.Service)
        → i < retries
        → Failed s i last t
        → attempt_service connection (before_attempt connection i t) ≡ (answer cs, u)
        → Ended s (some cs, none) u
    gave_up : {last : Option Err} {t : S} → Failed s retries last t → Ended s (none, last) t

  attempts-Ended :
      (fuel i : ℕ) (last : Option Err) (s t : S)
      → fuel + i ≡ suc retries
      → i ≤ retries
      → Failed s i last t
      → (r : Option connection.Service × Option Err) × ((attempts connection fuel i last t).0
          ≡ some r)
        × Ended s r (attempts connection fuel i last t).1
  unfolding attempts
  attempts-Ended zero i last s t e m f = absurd (omega arith)
  attempts-Ended (suc fuel) i last s t e m f = elim (Bool-cases (ltb i retries)) [
    | inr b ↦ rw b ((none, last), refl, gave_up (subst (λ n. Failed s n last t) (ground arith) f))
    | inl b ↦
        let (tried, u) = attempt_service connection (before_attempt connection i t) in
        elim (Answer-cases tried) [
          | inl (cs, a) ↦
              rw (b, a) ((some cs, none), refl, connected cs (ground arith) f (λ k. (a k, u)))
          | inr (failure, a) ↦
              rw (b, a)
                (attempts-Ended fuel (suc i) (some failure) s u (omega arith) (ground arith)
                  (once_more failure f (λ k. (a k, u))))
        ]
  ]

-- The loop of `getComputeClient` ends for any libraries, with at most ten attempts one after
-- another and a sleep before each but the first: the first attempt that succeeds gives the
-- service, and where all ten fail there is none and the error is that of the last one.
pub get_compute_client-Ended :
    {S : Type 0} (connection : Connection S) (s : S)
    → (r : Option connection.Service × Option Err) × ((get_compute_client connection s).0 ≡ some r)
      × Ended connection s r (get_compute_client connection s).1
unfolding get_compute_client
get_compute_client-Ended connection s =
    attempts-Ended connection (suc retries) 0 none s s refl (omega arith) none_yet
