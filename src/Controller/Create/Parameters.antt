-- ===== src/Controller/Create/Parameters.antt =====
-- The loop of `CreateVolume` over the parameters of a request.
use compute_persistent_disk.Prelude.{
  String, ◌≡◌, ◌≢◌, ◌∙◌, subst, ◌↔◌, ◌⊎◌, refl, inl, inr, false, List, [], ◌∷◌, arith, ◌==◌, eq_iff,
  Bool-cases, ◌++◌,
}
use compute_persistent_disk.Go.Strings.{to_lower}
use compute_persistent_disk.Go.Error.{Result, ok}
use compute_persistent_disk.Controller.Create.{apply_parameters}

-- A key that the driver understands.
abbrev pub IsKnown : String → Type 0
IsKnown k =
    (k ≡ "csiProvisionerSecretName")
    ⊎ (k ≡ "csiProvisionerSecretNamespace")
    ⊎ (to_lower k ≡ "type")
    ⊎ (to_lower k ≡ "zone")

abbrev pub AllKnown : List (String × String) → Type 0
AllKnown [] = Unit {0}
AllKnown ((k, v) ∷ ps) = IsKnown k × AllKnown ps

-- The parameters are understood.
abbrev pub IsOk : Result (String × String) → Type 0
IsOk r = (disk_type zone : String) × (r ≡ ok (disk_type, zone))

-- The parameters of a request are accepted exactly when each key is one of the two names of
-- secrets, or is `type` or `zone` in any case.
pub apply_parameters_iff :
    (ps : List (String × String)) (disk_type zone : String)
    → IsOk (apply_parameters ps disk_type zone) ↔ AllKnown ps
unfolding apply_parameters
apply_parameters_iff [] disk_type zone = ((λ h. tt), (λ h. (disk_type, zone, refl)))
apply_parameters_iff ((k, v) ∷ ps) disk_type zone = ground (
  arith,
  eq_iff k "csiProvisionerSecretName",
  eq_iff k "csiProvisionerSecretNamespace",
  eq_iff (to_lower k) "type",
  eq_iff (to_lower k) "zone",
  apply_parameters_iff ps disk_type zone,
  apply_parameters_iff ps v zone,
  apply_parameters_iff ps disk_type v,
)

-- Two stretches of parameters, one after the other.
apply_parameters-append :
    (ps qs : List (String × String)) (disk_type zone t z : String)
    → apply_parameters ps disk_type zone ≡ ok (t, z)
    → apply_parameters (ps ++ qs) disk_type zone ≡ apply_parameters qs t z
unfolding apply_parameters
apply_parameters-append [] qs disk_type zone t z h = cc
apply_parameters-append ((k, v) ∷ ps) qs disk_type zone t z h = ground (
  arith,
  apply_parameters-append ps qs disk_type zone t z,
  apply_parameters-append ps qs v zone t z,
  apply_parameters-append ps qs disk_type v t z,
)

ne_secret :
    (k secret : String) → to_lower k ≡ "type" → to_lower secret ≢ "type" → (k == secret) ≡ false
ne_secret k secret h n = elim (Bool-cases (k == secret)) [
  | inl e ↦ absurd (n (subst (λ x. to_lower x ≡ "type") ((eq_iff k secret).0 e) h))
  | inr e ↦ e
]

-- One more parameter, with a key that is `type` in any case, sets the disk type and leaves the zone.
type_parameter :
    (k v disk_type zone : String)
    → to_lower k ≡ "type"
    → apply_parameters ((k, v) ∷ []) disk_type zone ≡ ok (v, zone)
unfolding apply_parameters to_lower
type_parameter k v disk_type zone h = rw (
  ne_secret k "csiProvisionerSecretName" h (λ e. cc),
  ne_secret k "csiProvisionerSecretNamespace" h (λ e. cc),
  h,
)

-- Where the parameters before it are accepted, a last parameter whose key is `type` in any case
-- decides the disk type, and leaves the zone.
pub apply_parameters_last_type :
    (ps : List (String × String)) (k v disk_type zone t z : String)
    → apply_parameters ps disk_type zone ≡ ok (t, z)
    → to_lower k ≡ "type"
    → apply_parameters (ps ++ (k, v) ∷ []) disk_type zone ≡ ok (v, z)
apply_parameters_last_type ps k v disk_type zone t z h e =
    apply_parameters-append ps ((k, v) ∷ []) disk_type zone t z h ∙ type_parameter k v t z e
