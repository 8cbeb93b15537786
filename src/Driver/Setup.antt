-- ===== src/Driver/Setup.antt =====
-- The driver after its setup: which capabilities it answers to.
use compute_persistent_disk.Prelude.{
  ◌≡◌, ◌≢◌, ◌↔◌, ◌⊎◌, inl, inr, none, some, true, List, [], ◌∷◌, String, arith, eq_iff,
  Option-cases,
}
use compute_persistent_disk.Prelude.Int.{ℤ, pos, negsuc, eqb_ℤ}
use compute_persistent_disk.Go.Error.{Reply, respond}
use compute_persistent_disk.Csi.{
  single_node_writer, multi_node_reader_only, VolumeCapability, ValidateVolumeCapabilitiesResponse,
}
use compute_persistent_disk.Controller.Capabilities.{check_capabilities}
use compute_persistent_disk.Driver.{
  GceDriver, RpcType, unknown_rpc, create_delete_volume, publish_unpublish_volume, setup_gce_driver,
  validate_controller_service_request,
}

eqb_ℤ_iff : (a b : ℤ) → (eqb_ℤ a b ≡ true) ↔ (a ≡ b)
eqb_ℤ_iff (pos m) (pos n) = ground arith
eqb_ℤ_iff (pos m) (negsuc n) = ground arith
eqb_ℤ_iff (negsuc m) (pos n) = ground arith
eqb_ℤ_iff (negsuc m) (negsuc n) = ground arith

-- The setup of a driver with a name and a node ID, neither empty, succeeds. The driver then
-- accepts the controller requests of the type `UNKNOWN`, to create and delete, and to publish and
-- unpublish volumes, and no others.
pub setup-validate :
    {Cl Mo : Type 0} (cloud : Cl) (mounter : Mo) (name node_id : String) (d : GceDriver Cl Mo)
    (c : RpcType)
    → name ≢ ""
    → node_id ≢ ""
    → let (failure, ready) = setup_gce_driver cloud mounter name node_id d in
      (failure ≡ none)
      × ((validate_controller_service_request ready c ≡ none)
          ↔ ((c ≡ unknown_rpc) ⊎ (c ≡ create_delete_volume) ⊎ (c ≡ publish_unpublish_volume)))
unfolding setup_gce_driver validate_controller_service_request
setup-validate cloud mounter name node_id d c n i = ground (
  arith,
  eq_iff name "",
  eq_iff node_id "",
  eqb_ℤ_iff c (pos 0),
  eqb_ℤ_iff c (pos 1),
  eqb_ℤ_iff c (pos 2),
)

-- A capability with a mode that the driver has after its setup.
abbrev pub IsServed : VolumeCapability → Type 0
IsServed v =
    (v.access_mode ≡ some (record { mode = single_node_writer }))
    ⊎ (v.access_mode ≡ some (record { mode = multi_node_reader_only }))

abbrev AllServed : List VolumeCapability → Type 0
AllServed [] = Unit
AllServed (v ∷ vs) = IsServed v × AllServed vs

abbrev supported : Reply ValidateVolumeCapabilitiesResponse
supported = respond (record { supported = true; message = none })

-- After a setup with a name and a node ID, neither empty, volume capabilities are answered as
-- supported, with no error, exactly where each of them has an access mode, `SINGLE_NODE_WRITER`
-- or `MULTI_NODE_READER_ONLY`.
setup-check_capabilities_iff :
    {Cl Mo : Type 0} (cloud : Cl) (mounter : Mo) (name node_id : String) (d : GceDriver Cl Mo)
    → name ≢ ""
    → node_id ≢ ""
    → (vs : List VolumeCapability)
    → (check_capabilities (setup_gce_driver cloud mounter name node_id d).1.vcap vs ≡ supported)
      ↔ AllServed vs
unfolding setup_gce_driver check_capabilities
setup-check_capabilities_iff cloud mounter name node_id d n i [] =
    ground (arith, eq_iff name "", eq_iff node_id "")
setup-check_capabilities_iff cloud mounter name node_id d n i (v ∷ vs) =
    let rest = setup-check_capabilities_iff cloud mounter name node_id d n i vs in
    elim (Option-cases v.access_mode) [
      | inl h ↦ rw h (ground (arith))
      | inr (am, h) ↦ ground (
        arith,
        rest,
        eq_iff name "",
        eq_iff node_id "",
        eqb_ℤ_iff single_node_writer am.mode,
        eqb_ℤ_iff multi_node_reader_only am.mode,
      )
    ]
