-- ===== src/Lib.antt =====
-- A model of the Container Storage Interface driver for Google Compute Engine persistent disks,
-- with the theorems that make its parts correct.
--
-- The program. A driver (pkg/gce-csi-driver) serves three gRPC services. The controller service
-- makes and deletes disks and attaches them to instances by way of an interface to the compute
-- API, `GCECompute` (pkg/gce-cloud-provider), which has an implementation over the generated
-- client and a fake one. The node service puts an attached disk on a staging path and binds that
-- to a target, by way of the interface `Mounter` (pkg/mount-manager), which has an implementation
-- over the commands of the machine and a fake one. The identity service names the driver. A volume
-- is known by its ID, `{zone}/{name}` (pkg/utils), which the controller makes and which every
-- other call takes apart. A runner (test/remote) makes an instance on the cloud, copies the driver
-- and its tests there by ssh, runs them, brings their files back, and deletes the instance.
--
-- Which file models which part:
--   Prelude            shared names, Boolean tests, lists; Prelude/Int has Go's `int64`, whose
--                      operations wrap around at 2 ^ 64
--   Go                 what Go's language and standard library give: text (Go/Strings), paths
--                      (Go/Path), errors and results (Go/Error), maps (Go/Dict), functions that
--                      act and return early (Go/Handler)
--   Utils              pkg/utils/utils.go
--   Csi                the messages, with the fields that the driver uses
--   Cloud              the interface `GCECompute` and `IsGCEError`; Cloud/Provider has `CloudProvider`
--                      of gce-compute.go, Cloud/Fake has fake-gce.go; Cloud/Connect has
--                      `CreateCloudProvider` of gce.go, Cloud/Metadata what it reads from the
--                      metadata server, Cloud/Poll what `wait.Poll` is documented to do
--   Controller         pkg/gce-csi-driver/controller.go, one file per RPC: Create, Delete, Publish,
--                      Capabilities. Requests is about requests that are rejected, Session about RPCs
--                      one after another on the fake cloud, Service is the abstract service that
--                      they implement; Create/Made, Publish/Attached, Publish/Detached and
--                      Delete/Gone are about the RPCs over the cloud provider
--   Mount              pkg/mount-manager: Mount/Gce has `GCEMounter`, Mount/Commands what it makes of
--                      arguments and outputs, Mount/Fake the fake mounter; Mount/Device is about
--                      the paths of devices, Mount/Format and Mount/Mounted about `FormatAndMount`,
--                      Mount/Modes about `matchDiskMode`. Mount/Table is an interface of laws, what
--                      a mounter does to the mounts of a machine; Mount/Table/Machine says what is
--                      assumed of the machine, Mount/Table/Gce is `GCEMounter` as such a mounter
--   Node               pkg/gce-csi-driver/node.go; Node/Machine and Node/Bound are about the
--                      node service over `GCEMounter`, Node/Unwound about a mount that fails. Node/Service
--                      is the abstract node service, by the mounts on each place:
--                      Node/Service/Publish, Unmounts and Stage are about one RPC each,
--                      Node/Service/Refines and Flat about sequences of them
--   Driver             gce-driver.go and identity.go; Driver/Server has `ParseEndpoint` and `serve`
--                      (Driver/Endpoint and Driver/Serving are about these),
--                      Driver/Grpc the server of server.go that `Run` starts and waits for
--   Command            cmd/main.go, and the exits that it makes of itself (`MainExits`)
--   Volume             a volume that is made, attached and staged by its ID
--   Remote             test/remote: Remote/Ssh has ssh.go; Remote/Archive has e2e.go and the making of
--                      the archive; Remote/Workspace, Remote/Artifacts and Remote/Run have the rest
--                      of remote.go; Remote/Hosts, Remote/Provision, Remote/Client, Remote/Tests and
--                      Remote/Main have run_remote.go. Remote/Attempts is about `getComputeClient`,
--                      Remote/Passed, Remote/Up, Remote/Success and Remote/Exit about how the process of
--                      the runner ends, Remote/Cleanup about what it leaves, Remote/Timestamp about the names
--                      of workspaces, Remote/Ignored about flags without an effect, Remote/Kept about
--                      the variables of the packages
--   Witnesses          the theorems at concrete inputs
--
-- How it is modelled. An operation is a function from the state of the system behind an interface
-- to a value and the next state; `GceCompute`, `Mounter`, `Os`, `Net`, `Metadata`, `Libraries`,
-- `ComputeService`, and of the runner `Machine`, `Instances` and `Connection`, are records of such
-- operations with the type of their state. A handler is a do block whose lines are the statements
-- of the Go function in their order: `give_if` is an early return, `attempt` and `require` are
-- calls whose error is returned, `call` is any other call. A handler with a part that is reasoned
-- about on its own is that part after its guards: `provision`, `delete_named`, `publish_named`,
-- `unpublish_named`, `check_target`, `bind_target`, `unpublish_target` and `unstage_target` are
-- the rest of their RPCs. A reply is a response that may be nil and an error that may be nil, or a
-- runtime panic. A function keeps its name, in the spelling of this language.
--
-- What is abstracted. Contexts and log lines are dropped. The message of an error is kept as its
-- format with its arguments. Of an error of another package only what the driver tests for is
-- known. A Go map that is ranged over is a list in the order of the iteration, any order being a
-- value of the parameter. `ToLower` leaves a rune alone where its lower case lies outside ASCII,
-- and `ToUpper` likewise, which no comparison of the driver can tell. The fake cloud stores values
-- where the code stores pointers, which is the same since each entry has its own. The driver's
-- three servers hold a pointer to the driver that holds them; in the model they hold the cloud
-- provider and the mounter, and an RPC that reads the driver has it as an argument. The goroutine
-- that serves, the network and the callers of `Start`, `Stop` and `ForceStop` take steps in any
-- order (`Step`), until a `serve` that fails ends the process (`Dies`). Loops are recursions on
-- their lists. The one loop that counts, that of `getComputeClient`, runs on fuel of 11, one more
-- than its ten attempts, and the theorem on it says that this is enough. The runner makes its
-- archive where this is first asked for; in the code a goroutine may have made it earlier, at most
-- once, by `sync.Once`. The locks of the runner are dropped, since no two of its goroutines share
-- what they guard in the model.
--
-- Parameters. The generated compute client (`ComputeService`), `wait.Poll` (`Poll`), the operating
-- system (`Os`), the network (`Net`), the metadata server (`Metadata`), and what connects to the
-- cloud, the OAuth library and `compute.New` (`Libraries`). For the runner: the machine it runs on
-- with its commands, files and clock (`Machine`), the instances of the compute client
-- (`Instances`), what connects to it (`Connection`), and `utilerrors.NewAggregate`. These laws are
-- assumed of them: `IsPoll`, what the documentation of `wait.Poll` says of it; and, where mounts
-- are told of, `Mounts`, by which a known path leads to a place, whose mounts are stacked; mount
-- and umount that succeed put one mount on a place or take the last one off it and change nothing
-- where they fail; the device of a place is another one than that of its `..` exactly where the
-- last mount on it is one that is seen; and the other commands and calls leave the mounts alone.
-- Which mounts are seen is left open: a bind mount on the device of the parent directory is not,
-- which the comment on `IsLikelyNotMountPoint` says as well. The laws are those of a machine whose
-- mounts are private, so that a mount on one place does not show on another one, and of known
-- paths of which none lies below another, since a mount hides what is below it. Mount options such
-- as `remount`, under which no mount is made, are not plain.
--
-- What is not modelled: the calls of the gRPC library behind `Serve`, the log, the parsing of the
-- flags, which are calls of libraries, what the remote runner prints, the end-to-end and sanity
-- tests (test/e2e, test/sanity), and vendored libraries.
pub mod Prelude
pub mod Go
pub mod Utils
pub mod Csi
pub mod Cloud
pub mod Controller
pub mod Mount
pub mod Node
pub mod Driver
pub mod Command
pub mod Volume
pub mod Remote
mod Witnesses
