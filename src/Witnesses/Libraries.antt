-- ===== src/Witnesses/Libraries.antt =====
-- A compute service, a poll, a metadata server and the libraries of the process that answer in one way
-- each, a machine on which every command succeeds, and a network that listens.
use compute_persistent_disk.Prelude.{
  if◌then◌else◌, nat_eq, ℕ, suc, String, Bool, ◌≡◌, refl, true, false, Option, none, some, List, [],
  ◌∷◌,
}
use compute_persistent_disk.Prelude.Int.{pos}
use compute_persistent_disk.Go.Error.{Err, foreign, answer, refused}
use compute_persistent_disk.Go.Handler.{Action}
use compute_persistent_disk.Csi.{VolumeCapability, single_node_writer}
use compute_persistent_disk.Cloud.{Disk, Operation}
use compute_persistent_disk.Cloud.Poll.{Poll, Polled, met, failed, over, IsPoll}
use compute_persistent_disk.Cloud.Provider.{ComputeService}
use compute_persistent_disk.Cloud.Metadata.{Metadata}
use compute_persistent_disk.Cloud.Connect.{Libraries}
use compute_persistent_disk.Mount.Gce.{Os}
use compute_persistent_disk.Driver.Server.{Net}

abbrev pub capability : VolumeCapability
capability = record {
  access_type = none;
  access_mode = some (record { mode = single_node_writer });
}

abbrev pub operation : Operation
operation = record { name = "op"; status = "PENDING" }

abbrev pub finished : Operation
finished = record { name = "op"; status = "DONE" }

abbrev pub ssd : Disk
ssd = record {
  name = "v";
  size_gb = pos 5;
  description = "";
  type = "zones/z/diskTypes/pd-ssd";
  kind = "";
}

-- The state counts the calls.
abbrev pub service : ComputeService
service = record {
  State = ℕ;
  base_path = "https://compute/";
  disks_get = λ project zone name s. (answer ssd, suc s);
  disks_insert = λ project zone disk s. (answer operation, suc s);
  disks_delete = λ project zone name s. (answer operation, suc s);
  instances_get = λ project zone name s. (answer (record { disks = [] }), suc s);
  instances_attach_disk = λ project zone name disk s. (answer operation, suc s);
  instances_detach_disk = λ project zone name device s. (answer operation, suc s);
  zone_operations_get = λ project zone name s. (answer finished, suc s);
}

-- The result of a poll of one round.
abbrev ended : Bool → Option Err → Option Err
ended b (some e) = some e
ended true none = none
ended false none = some (foreign "timed out waiting for the condition")

abbrev pub once : {S : Type 0} → Poll S
once interval timeout condition s = let ((b, e), s') = condition s in (ended b e, s')

once-Polled :
    {S : Type 0} (condition : Action S (Bool × Option Err)) (s : S) (b : Bool) (e : Option Err)
    (s' : S)
    → condition s ≡ ((b, e), s')
    → Polled condition s (ended b e) s'
once-Polled condition s b (some e) s' h = failed h
once-Polled condition s true none s' h = met h
once-Polled condition s false none s' h = over (foreign "timed out waiting for the condition") h

pub once-IsPoll : {S : Type 0} → IsPoll (once {S = S})
once-IsPoll interval timeout condition s =
    once-Polled condition s (condition s).0.0 (condition s).0.1 (condition s).1 refl

abbrev pub server : Metadata
server = record {
  State = ℕ;
  get = λ path s. (answer "projects/1/zones/z", suc s);
  project_id = λ s. (answer "p", suc s);
}

-- There is no disk.
abbrev pub vacant : ComputeService
vacant = record service { disks_get = λ project zone name s. (refused (foreign "notFound"), suc s) }

-- There is no disk at the first call, and a disk from then on.
abbrev pub growing : ComputeService
growing = record service {
  disks_get = λ project zone name s.
      (if nat_eq s 0 then refused (foreign "notFound") else answer ssd, suc s);
}

-- The instances have one disk, of which only the name of the device is known.
abbrev pub stocked : ComputeService
stocked = record service {
  instances_get = λ project zone name s. (
    answer (record {
      disks =
          record { device_name = "v"; kind = ""; mode = "READ_WRITE"; source = ""; type = "" } ∷ [];
    }),
    suc s,
  );
}

-- A token is its number, a client the number of its source, a service its user agent.
abbrev pub libraries : Libraries server
libraries = record {
  TokenSource = ℕ;
  Token = ℕ;
  Client = ℕ;
  Service = String;
  default_token_source = λ s. (answer 7, suc s);
  token = λ source s. (answer source, suc s);
  poll_immediate = once;
  new_client = λ source. source;
  new_service = λ client s. (answer "", suc s);
  with_user_agent = λ agent made. agent;
  goos = "linux";
  goarch = "amd64";
}

-- The state holds the commands, the last one first. `..` of a path is on the device of the path.
abbrev pub willing : Os
willing = record {
  State = List String;
  stat = λ path s. (answer 1, s);
  lstat = λ path s. (answer 1, s);
  mkdir_all = λ path perm s. (none, s);
  remove = λ path s. (none, s);
  exec_run = λ command args s. (("", none), command ∷ s);
  glob = λ pattern s. (([], none), s);
  eval_symlinks = λ path s. (answer path, s);
}

-- The state counts the calls of `net.Listen`.
abbrev pub network : Net
network = record { State = ℕ; remove = λ path s. (none, s); listen = λ proto addr s. (none, suc s) }
