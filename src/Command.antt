-- ===== src/Command.antt =====
-- cmd/main.go: the process of the driver. The flags are arguments.
use compute_persistent_disk.Prelude.{
  ℕ, refl, String, ◌≡◌, ◌≢◌, ap, inl, inr, Option, none, some, arith, ◌==◌, eq_iff, Bool-cases,
}
use compute_persistent_disk.Go.Error.{
  Err, errorf, end, error, Answer, answer, refused, Answer-cases,
}
use compute_persistent_disk.Go.Handler
use compute_persistent_disk.Go.Handler.{Action, Flow, next, done, Body, ◌>>=◌, ◌>>◌, give, call}
use compute_persistent_disk.Cloud.Metadata.{Metadata}
use compute_persistent_disk.Cloud.Connect.{Libraries, Connected, create_cloud_provider}
use compute_persistent_disk.Mount.Gce.{GceMounter, empty_mounter, create_mounter}
use compute_persistent_disk.Driver.{identity_server, get_gce_driver, setup_gce_driver}
use compute_persistent_disk.Driver.Server.{Net}
use compute_persistent_disk.Driver.Grpc.{
  Reach-wg, NonBlocking, new_non_blocking_grpc_server, begin, run, Reach, Dies, WaitReturns,
}

-- The defaults of the flags.
abbrev pub default_endpoint : String
default_endpoint = "unix://tmp/csi.sock"

abbrev pub default_driver_name : String
default_driver_name = "com.google.csi.gcepd"

abbrev pub default_node_id : String
default_node_id = ""

-- `glog.Fatalf` ends the process; otherwise `Run` waits for the server that it has started.
pub data Handled (Cl Mo : Type 0) : Type 0 where
  fatal : Err → Handled Cl Mo
  waiting : NonBlocking Cl Mo → Handled Cl Mo

module _ {metadata : Metadata} (lib : Libraries metadata) where
  -- Goes on with the value, or ends the process.
  abbrev or_fatal : {A Cl Mo : Type 0} → String → Answer A → Body metadata.State (Handled Cl Mo) A
  or_fatal format (answer a) s = (next a, s)
  or_fatal format (refused e) s = give (fatal (errorf format (error e end))) s

  abbrev stop_fatal :
      {Cl Mo : Type 0} → String → Option Err → Body metadata.State (Handled Cl Mo) (Unit {0})
  stop_fatal format none s = (next tt, s)
  stop_fatal format (some e) s = give (fatal (errorf format (error e end))) s

  unfoldable pub handle :
      String → String → String → Action metadata.State (Handled (Connected lib.Service) GceMounter)
  unfolding create_mounter get_gce_driver setup_gce_driver
  handle endpoint driver_name node_id = Handler.run do
    connected ← call (create_cloud_provider lib)
    cloud_provider ← or_fatal "Failed to get cloud provider: %v" connected
    mounter ← or_fatal "Failed to get mounter: %v" create_mounter
    let (failure, ready) =
        setup_gce_driver cloud_provider mounter driver_name node_id get_gce_driver
    stop_fatal "Failed to initialize GCE CSI Driver: %v" failure
    give (waiting (run ready endpoint))

-- A process that waits was given a driver name and a node ID, neither empty, has made a cloud
-- provider, and has begun to serve all three services at the endpoint.
pub handle_waits :
    {metadata : Metadata} (lib : Libraries metadata) (endpoint driver_name node_id : String)
    (s : metadata.State) (b : NonBlocking (Connected lib.Service) GceMounter)
    → (handle lib endpoint driver_name node_id s).0 ≡ waiting b
    → (driver_name ≢ "")
      × (node_id ≢ "")
      × (provider : Connected lib.Service) × ((create_cloud_provider lib s).0 ≡ answer provider)
      × (b
          ≡ begin endpoint
              (some identity_server)
              (some (record { cloud_provider = provider }))
              (some (record { mounter = empty_mounter }))
              new_non_blocking_grpc_server)
unfolding handle run
handle_waits lib endpoint driver_name node_id s b h =
    elim (Answer-cases (create_cloud_provider lib s).0) [
      | inr (failure, e) ↦ absurd (ground arith)
      | inl (provider, e) ↦ elim (Bool-cases (driver_name == "")) [
        | inl n ↦ absurd (ground arith)
        | inr n ↦ elim (Bool-cases (node_id == "")) [
          | inl i ↦ absurd (ground arith)
          | inr i ↦ (
            ground (arith, eq_iff driver_name ""),
            ground (arith, eq_iff node_id ""),
            provider,
            e,
            ground arith,
          )
        ]
      ]
    ]

-- While a process waits, the wait group for which `Run` waits is not at 0: whatever steps of the
-- network, of the goroutines and of the clients of the server were taken from any state of the
-- network. That a `serve` fails, which ends the process by `glog.Fatal`, is no such step.
pub handle_blocks :
    {metadata : Metadata} (lib : Libraries metadata) (endpoint driver_name node_id : String)
    (s : metadata.State) (b b' : NonBlocking (Connected lib.Service) GceMounter) (net : Net)
    (t t' : net.State)
    → (handle lib endpoint driver_name node_id s).0 ≡ waiting b
    → Reach net (b, t) (b', t')
    → ¬ WaitReturns b'
unfolding begin new_non_blocking_grpc_server
handle_blocks lib endpoint driver_name node_id s b b' net t t' h r e =
    let (_, _, provider, _, started) = handle_waits lib endpoint driver_name node_id s b h in
    let one : b.wg ≡ 1 =
      ap (λ (c : NonBlocking (Connected lib.Service) GceMounter). c.wg) started in
    absurd (omega (arith, Reach-wg net r (omega arith)))

-- The exits that the driver makes of itself, with their status: `glog.Fatal` in `handle` or in the
-- goroutine that serves, and the `os.Exit(0)` of `main` behind `handle`, when the server that it waits
-- for has ended. A runtime panic is none of them.
pub data MainExits {metadata : Metadata} (lib : Libraries metadata) (net : Net)
    (endpoint driver_name node_id : String) (s : metadata.State) : ℕ → Type 0 where
  by_handle :
      (e : Err)
      → (handle lib endpoint driver_name node_id s).0 ≡ fatal e
      → MainExits lib net endpoint driver_name node_id s 255
  by_serve :
      (b b' : NonBlocking (Connected lib.Service) GceMounter) (t t' : net.State)
      → (handle lib endpoint driver_name node_id s).0 ≡ waiting b
      → Reach net (b, t) (b', t')
      → Dies net (b', t')
      → MainExits lib net endpoint driver_name node_id s 255
  by_return :
      (b b' : NonBlocking (Connected lib.Service) GceMounter) (t t' : net.State)
      → (handle lib endpoint driver_name node_id s).0 ≡ waiting b
      → Reach net (b, t) (b', t')
      → WaitReturns b'
      → MainExits lib net endpoint driver_name node_id s 0

-- An exit that the driver makes of itself has the status 255: none is by the return of `Wait`.
MainExits-status :
    {metadata : Metadata} (lib : Libraries metadata) (net : Net)
    (endpoint driver_name node_id : String) (s : metadata.State) {status : ℕ}
    → MainExits lib net endpoint driver_name node_id s status
    → status ≡ 255
MainExits-status lib net endpoint driver_name node_id s (by_handle e h) = refl
MainExits-status lib net endpoint driver_name node_id s (by_serve b b' t t' h r d) = refl
MainExits-status lib net endpoint driver_name node_id s (by_return b b' t t' h r w) =
    absurd (handle_blocks lib endpoint driver_name node_id s b b' net t t' h r w)
