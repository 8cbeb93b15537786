-- ===== src/Witnesses/Process.antt =====
-- A process that is started on a machine where everything answers.
use compute_persistent_disk.Prelude.{ℕ, [], ◌∷◌, String, ◌≡◌, ◌≢◌, refl, none, some}
use compute_persistent_disk.Go.Error.{answer}
use compute_persistent_disk.Cloud.Metadata.{get_project_and_zone_from_metadata}
use compute_persistent_disk.Cloud.Connect.{
  Connected, IsClient, IsService, create_cloud_provider, create_cloud_provider-IsClient,
}
use compute_persistent_disk.Mount.Gce.{GceMounter, empty_mounter}
use compute_persistent_disk.Driver.{identity_server}
use compute_persistent_disk.Driver.Server.{
  parse_endpoint, listening, identity, controller, node, registered, serve,
}
use compute_persistent_disk.Driver.Serving.{Prepared, serve-Prepared}
use compute_persistent_disk.Driver.Grpc
use compute_persistent_disk.Driver.Grpc.{
  NonBlocking, new_non_blocking_grpc_server, begin, Reach, here, later, moves, WaitReturns,
}
use compute_persistent_disk.Command.{
  handle, waiting, default_endpoint, default_driver_name, handle_waits, handle_blocks,
}
use compute_persistent_disk.Witnesses.Libraries.{libraries, server, once-IsPoll, network}

abbrev node_id : String
node_id = "n"

abbrev connected : Connected String
connected = record { service = "GCE CSI Driver/0.2.0 (linux amd64)"; project = "p"; zone = "z" }

connects : (create_cloud_provider libraries 0).0 ≡ answer connected
unfolding create_cloud_provider
connects = refl

create_cloud_provider-IsClient_example :
    (source client t u : ℕ) × IsClient libraries 0 source client t
    × IsService libraries client t connected.service u
    × ((get_project_and_zone_from_metadata server u).0 ≡ answer (connected.project, connected.zone))
create_cloud_provider-IsClient_example =
    create_cloud_provider-IsClient libraries 0 connected once-IsPoll connects

abbrev running : NonBlocking (Connected String) GceMounter
running =
    begin default_endpoint (some identity_server) (some (record { cloud_provider = connected }))
      (some (record { mounter = empty_mounter })) new_non_blocking_grpc_server

runs : (handle libraries default_endpoint default_driver_name node_id 0).0 ≡ waiting running
unfolding handle create_cloud_provider begin Grpc.run
runs = refl

handle_waits_example :
    (default_driver_name ≢ "")
    × (node_id ≢ "")
    × (provider : Connected String) × ((create_cloud_provider libraries 0).0 ≡ answer provider)
    × (running
        ≡ begin default_endpoint
            (some identity_server)
            (some (record { cloud_provider = provider }))
            (some (record { mounter = empty_mounter }))
            new_non_blocking_grpc_server)
handle_waits_example =
    handle_waits libraries default_endpoint default_driver_name node_id 0 running runs

handle_blocks_example : ¬ WaitReturns running
handle_blocks_example =
    handle_blocks libraries default_endpoint default_driver_name node_id 0 running running network 0
      1 runs (later here (moves 1))

listens :
    (serve network default_endpoint (some tt) (some tt) (some tt) 0).0
    ≡ listening "unix" "/tmp/csi.sock" (identity ∷ controller ∷ node ∷ [])
unfolding serve
listens = refl

serve-Prepared_example :
    (addr : String) × (u : ℕ) × (parse_endpoint default_endpoint ≡ answer ("unix", addr))
    × Prepared network "unix" addr 0 "/tmp/csi.sock" u
    × (network.listen "unix" "/tmp/csi.sock" u
        ≡ (none, (serve network default_endpoint (some tt) (some tt) (some tt) 0).1))
    × ((identity ∷ controller ∷ node ∷ []) ≡ registered (some tt) (some tt) (some tt))
serve-Prepared_example =
    serve-Prepared network default_endpoint (some tt) (some tt) (some tt) 0 "unix" "/tmp/csi.sock"
      (identity ∷ controller ∷ node ∷ []) listens
