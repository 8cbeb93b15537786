-- ===== src/Driver/Endpoint.antt =====
-- What `ParseEndpoint` of pkg/gce-csi-driver/utils.go accepts.
use compute_persistent_disk.Prelude.{
  String, ◌<>◌, ◌≡◌, ◌≢◌, ◌⊎◌, inl, inr, true, List, [], ◌∷◌, arith, eq_iff, Bool-cases,
}
use compute_persistent_disk.Go.Strings.{split_two, has_prefix, to_lower}
use compute_persistent_disk.Go.Strings.Cut.{split_two-two}
use compute_persistent_disk.Go.Error.{answer}
use compute_persistent_disk.Driver.Server.{parse_endpoint, endpoint_of}

endpoint_of-answer :
    (ep : String) (ps : List String) (proto addr : String)
    → endpoint_of ep ps ≡ answer (proto, addr)
    → (ps ≡ proto ∷ addr ∷ []) × (addr ≢ "")
endpoint_of-answer ep [] proto addr h = cc
endpoint_of-answer ep (p ∷ []) proto addr h = cc
endpoint_of-answer ep (p ∷ q ∷ []) proto addr h = ground (arith, eq_iff q "")
endpoint_of-answer ep (p ∷ q ∷ r ∷ ps) proto addr h = cc

-- An endpoint that is accepted starts with `unix://` or `tcp://` in any case, and is the protocol
-- and the address that are answered with `://` between them; the address is not empty.
pub parse_endpoint_answer :
    (ep proto addr : String)
    → parse_endpoint ep ≡ answer (proto, addr)
    → (ep ≡ proto <> ("://" <> addr))
      × (addr ≢ "")
      × ((has_prefix (to_lower ep) "unix://" ≡ true) ⊎ (has_prefix (to_lower ep) "tcp://" ≡ true))
unfolding parse_endpoint
parse_endpoint_answer ep proto addr h = elim (Bool-cases (has_prefix (to_lower ep) "unix://")) [
  | inl u ↦
      let (two, n) = endpoint_of-answer ep (split_two "://" ep) proto addr (rw u at h) in
      (split_two-two "://" ep proto addr two, n, inl u)
  | inr u ↦ elim (Bool-cases (has_prefix (to_lower ep) "tcp://")) [
    | inl t ↦
        let (two, n) = endpoint_of-answer ep (split_two "://" ep) proto addr (rw (u, t) at h) in
        (split_two-two "://" ep proto addr two, n, inr t)
    | inr t ↦ absurd (ground arith)
  ]
]
