-- ===== src/Driver/Server.antt =====
-- The endpoint that the driver serves: `ParseEndpoint` of pkg/gce-csi-driver/utils.go and `serve` of
-- server.go, up to the call that serves. gRPC and the network are parameters.
use compute_persistent_disk.Prelude.{
  String, ◌<>◌, not, ◌||◌, ◌++◌, is_nil, Option, none, some, List, [], ◌∷◌, ◌==◌, if◌then◌else◌,
}
use compute_persistent_disk.Go.Strings.{split_two, has_prefix, to_lower}
use compute_persistent_disk.Go.Error.{
  Err, errorf, end, str, error, Answer, answer, refused, is_not_exist,
}
use compute_persistent_disk.Go.Handler.{Action, Flow, Body, next, done, ◌>>=◌, give, call, run}

-- The pieces of the endpoint: the test `s[1] != ""`, where `SplitN` found two.
abbrev pub endpoint_of : String → List String → Answer (String × String)
endpoint_of ep (proto ∷ addr ∷ []) =
    if not (addr == "")
    then answer (proto, addr)
    else refused (errorf "Invalid endpoint: %v" (str ep end))
endpoint_of ep _ = refused (errorf "Invalid endpoint: %v" (str ep end))

unfoldable pub parse_endpoint : String → Answer (String × String)
unfolding split_two to_lower
parse_endpoint ep =
    if has_prefix (to_lower ep) "unix://" || has_prefix (to_lower ep) "tcp://"
    then endpoint_of ep (split_two "://" ep)
    else refused (errorf "Invalid endpoint: %v" (str ep end))

-- The services that are registered with the gRPC server.
pub data Service : Type 0 where
  identity controller node : Service

-- `glog.Fatal` ends the process; otherwise the server listens with a protocol and an address, and
-- serves what is registered.
pub data Served : Type 0 where
  fatal : Err → Served
  listening : String → String → List Service → Served

pub record Net : Type 1 where
  pub State : Type 0
  pub remove : String → Action State (Option Err)
  pub listen : String → String → Action State (Option Err)

-- What `serve` does with the error of the removal of an old socket.
abbrev pub removal : String → Option Err → Flow Served String
removal addr none = next addr
removal addr (some e) =
    if is_not_exist e
    then next addr
    else done (fatal (errorf "Failed to remove %s, error: %s" (str addr (error e end))))

-- `if ids != nil { csi.RegisterIdentityServer(server, ids) }`, and the same for the other two.
abbrev pub registered : {I C N : Type 0} → Option I → Option C → Option N → List Service
registered ids cs ns =
    (if is_nil ids then [] else identity ∷ [])
    ++ ((if is_nil cs then [] else controller ∷ []) ++ (if is_nil ns then [] else node ∷ []))

module _ (net : Net) where
  open net use {State}

  -- The address to listen on.
  abbrev pub prepared : String → String → Body State Served String
  prepared proto addr s =
      if proto == "unix"
      then (let (e, s') = net.remove ("/" <> addr) s in (removal ("/" <> addr) e, s'))
      else (next addr, s)

  abbrev pub parsed : Answer (String × String) → Body State Served (String × String)
  parsed (answer r) s = (next r, s)
  parsed (refused e) s = (done (fatal e), s)

  unfoldable pub serve :
      {I C N : Type 0} → String → Option I → Option C → Option N → Action State Served
  unfolding parse_endpoint
  serve endpoint ids cs ns = run do
    (proto, addr) ← parsed (parse_endpoint endpoint)
    path ← prepared proto addr
    e ← call (net.listen proto path)
    give (elim e [
      | none ↦ listening proto path (registered ids cs ns)
      | some e ↦ fatal (errorf "Failed to listen: %v" (error e end))
    ])
