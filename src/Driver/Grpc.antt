-- ===== src/Driver/Grpc.antt =====
-- `nonBlockingGRPCServer` of pkg/gce-csi-driver/server.go: `Start` makes a goroutine, `Wait` waits for
-- a `sync.WaitGroup`. The goroutines, the network and the client of the server take steps in any order.
use compute_persistent_disk.Prelude.{
  ℕ, suc, ◌<◌, String, ◌≡◌, Option, none, some, List, [], ◌∷◌, ◌++◌, arith,
}
use compute_persistent_disk.Go.Error.{Err}
use compute_persistent_disk.Go.Handler.{Action}
use compute_persistent_disk.Driver.{IdentityServer, ControllerServer, NodeServer, GceDriver}
use compute_persistent_disk.Driver.Server.{Service, listening, fatal, Net, serve}

-- `logGRPC`, whose log lines are dropped.
unfoldable pub log_grpc :
    {S Request Response : Type 0}
    → (Request → Action S (Response × Option Err))
    → Request
    → Action S (Response × Option Err)
log_grpc handler req s = let ((resp, e), s') = handler req s in ((resp, e), s')

module _ (Cl Mo : Type 0) where
  -- A goroutine that runs `serve`: it has begun, or it is in the call of `Serve`.
  pub data Goroutine : Type 0 where
    begun :
        String
        → Option IdentityServer
        → Option (ControllerServer Cl)
        → Option (NodeServer Mo)
        → Goroutine
    serving : Goroutine

  -- The counter of the wait group, the gRPC server if `serve` has set it, and the goroutines.
  pub record NonBlocking : Type 0 where
    pub wg : ℕ
    pub server : Option (List Service)
    pub goroutines : List Goroutine

module _ {Cl Mo : Type 0} where
  unfoldable pub new_non_blocking_grpc_server : NonBlocking Cl Mo
  new_non_blocking_grpc_server = record { wg = 0; server = none; goroutines = [] }

  -- `Start`: `s.wg.Add(1)`, and `go s.serve(endpoint, ids, cs, ns)`.
  unfoldable pub begin :
      String
      → Option IdentityServer
      → Option (ControllerServer Cl)
      → Option (NodeServer Mo)
      → NonBlocking Cl Mo
      → NonBlocking Cl Mo
  begin endpoint ids cs ns b = record b {
    wg = suc b.wg;
    goroutines = b.goroutines ++ begun endpoint ids cs ns ∷ [];
  }

  -- `Wait` returns where the counter is 0.
  abbrev pub WaitReturns : NonBlocking Cl Mo → Type 0
  WaitReturns b = b.wg ≡ 0

  -- `Run` up to its `Wait`, for a driver that was set up, whose three servers are not nil.
  unfoldable pub run : GceDriver Cl Mo → String → NonBlocking Cl Mo
  unfolding new_non_blocking_grpc_server begin
  run d endpoint = begin endpoint d.ids d.cs d.ns new_non_blocking_grpc_server

  module _ (net : Net) where
    -- The steps of the server with the state of the network.
    -- A goroutine whose `serve` fails ends the process instead, which is `Dies`.
    pub data Step : NonBlocking Cl Mo × net.State → NonBlocking Cl Mo × net.State → Type 0 where
      starts :
          {b : NonBlocking Cl Mo} {s : net.State} (endpoint : String) (ids : Option IdentityServer)
          (cs : Option (ControllerServer Cl)) (ns : Option (NodeServer Mo))
          → Step (b, s) (begin endpoint ids cs ns b, s)
      listens :
          {b : NonBlocking Cl Mo} {s s' : net.State} (before after : List (Goroutine Cl Mo))
          (endpoint proto addr : String) (ids : Option IdentityServer)
          (cs : Option (ControllerServer Cl)) (ns : Option (NodeServer Mo))
          (services : List Service)
          → b.goroutines ≡ before ++ begun endpoint ids cs ns ∷ after
          → serve net endpoint ids cs ns s ≡ (listening proto addr services, s')
          → Step
              (b, s)
              (record b { server = some services; goroutines = before ++ serving ∷ after }, s')
      -- `Serve` returns, and with it `serve`.
      returns :
          {b : NonBlocking Cl Mo} {s : net.State} (before after : List (Goroutine Cl Mo))
          → b.goroutines ≡ before ++ serving ∷ after
          → Step (b, s) (record b { goroutines = before ++ after }, s)
      -- `Stop` and `ForceStop` call the gRPC server, which ends its calls of `Serve`.
      stops :
          {b : NonBlocking Cl Mo} {s : net.State} (services : List Service)
          → b.server ≡ some services
          → Step (b, s) (b, s)
      -- The network moves by itself.
      moves : {b : NonBlocking Cl Mo} {s : net.State} (s' : net.State) → Step (b, s) (b, s')

    -- `glog.Fatal` in the `serve` of a goroutine: a bad endpoint, an old socket that cannot be
    -- removed, or a refusal to listen.
    pub data Dies : NonBlocking Cl Mo × net.State → Type 0 where
      dies :
          {b : NonBlocking Cl Mo} {s s' : net.State} (before after : List (Goroutine Cl Mo))
          (endpoint : String) (ids : Option IdentityServer) (cs : Option (ControllerServer Cl))
          (ns : Option (NodeServer Mo)) (e : Err)
          → b.goroutines ≡ before ++ begun endpoint ids cs ns ∷ after
          → serve net endpoint ids cs ns s ≡ (fatal e, s')
          → Dies (b, s)

    pub data Reach (start : NonBlocking Cl Mo × net.State)
        : NonBlocking Cl Mo × net.State → Type 0 where
      here : Reach start start
      later : {c d : NonBlocking Cl Mo × net.State} → Reach start c → Step c d → Reach start d

    -- No step takes from the counter.
    Step-wg : {c d : NonBlocking Cl Mo × net.State} → Step c d → 0 < c.0.wg → 0 < d.0.wg
    unfolding begin
    Step-wg (starts endpoint ids cs ns) h = omega arith
    Step-wg (listens before after endpoint proto addr ids cs ns services e f) h = h
    Step-wg (returns before after e) h = h
    Step-wg (stops services e) h = h
    Step-wg (moves s') h = h

    pub Reach-wg : {c d : NonBlocking Cl Mo × net.State} → Reach c d → 0 < c.0.wg → 0 < d.0.wg
    Reach-wg here h = h
    Reach-wg (later r st) h = Step-wg st (Reach-wg r h)
