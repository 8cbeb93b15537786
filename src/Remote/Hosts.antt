-- ===== src/Remote/Hosts.antt =====
-- The data of test/remote/run_remote/run_remote.go and what it computes of them: instances and their
-- addresses, the request for an instance, results, flags. The compute client is a parameter.
use compute_persistent_disk.Prelude.{
  true, ℕ, String, ◌<>◌, Bool, not, Option, none, some, List, [], ◌∷◌, ◌==◌, if◌then◌else◌,
  is_empty,
}
use compute_persistent_disk.Go.Strings.{to_upper, split_two}
use compute_persistent_disk.Go.Error.{Err, errorf, end, Answer}
use compute_persistent_disk.Go.Handler.{Action}
use compute_persistent_disk.Go.Dict.{Dict, insert}
use compute_persistent_disk.Remote.{Flags, World}
use compute_persistent_disk.Remote.Ssh.{add_hostname_ip}

-- An instance that the cloud gives: its status and, by network interface, the `NatIP` of each of its
-- access configurations.
pub record Host : Type 0 where
  pub status : String
  pub network_interfaces : List (List String)

-- What is asked for of an instance: how it is reached from outside, the disk it boots from, and itself.
pub record AccessConfig : Type 0 where
  pub type : String
  pub name : String

pub record BootDisk : Type 0 where
  pub auto_delete : Bool
  pub boot : Bool
  pub type : String
  pub disk_name : String
  pub source_image : String

pub record HostRequest : Type 0 where
  pub name : String
  pub machine_type : String
  pub network_interfaces : List (List AccessConfig)
  pub disks : List BootDisk

-- An insertion is answered by an operation, which may hold an error, or by an error, beside which
-- there may be an operation.
pub data Inserted : Type 0 where
  started : Option String → Inserted
  rejected : Option (Option String) → Err → Inserted

-- The compute client: project, zone, and the instance.
pub record Instances (S : Type 0) : Type 0 where
  pub get : String → String → String → Action S (Answer Host)
  pub insert : String → String → HostRequest → Action S Inserted
  pub delete : String → String → String → Action S (Option Err)
  -- `GetSerialPortOutput(...).Port(port)`
  pub get_serial_port_output : String → String → String → ℕ → Action S (Answer String)

pub record TestResult : Type 0 where
  pub output : String
  pub err : Option Err
  pub host : String
  pub exit_ok : Bool

-- The method `Set` of `envs`.
unfoldable pub set_env : Dict String → String → Option Err × Dict String
unfolding split_two insert
set_env emap value = elim (split_two "=" value) [
  | k ∷ v ∷ [] ↦ (none, insert k v emap)
  | _ ↦ (some (errorf "invalid env string" end), emap)
]

-- The first address of an interface that is not empty, or the empty text.
unfoldable pub first_nat_ip : List String → String
first_nat_ip [] = ""
first_nat_ip (ip ∷ ips) = let later = first_nat_ip ips in if not (ip == "") then ip else later

-- `getexternalIP`
unfoldable pub get_external_ip : List (List String) → String
unfolding first_nat_ip
get_external_ip [] = ""
get_external_ip (ni ∷ nis) =
    let later = get_external_ip nis in
    if not (first_nat_ip ni == "") then first_nat_ip ni else later

abbrev default_machine : String
default_machine = "n1-standard-1"

unfoldable pub machine_type : String → String → String
machine_type zone machine =
    "zones/" <> (zone <> ("/machineTypes/" <> (if machine == "" then default_machine else machine)))

-- The tests behind the first one.
abbrev focus_rest : String → List String → String
focus_rest focus [] = focus
focus_rest focus (test ∷ tests) = focus_rest (focus <> ("|" <> test)) tests

unfoldable pub tests_to_ginkgo_focus : List String → String
tests_to_ginkgo_focus [] = "--focus=\"" <> "\""
tests_to_ginkgo_focus (test ∷ tests) = focus_rest ("--focus=\"" <> test) tests <> "\""

abbrev pub instance_name : String
instance_name = "gce-pd-csi-e2e"

-- The instance that `createInstance` asks for.
unfoldable pub host_request : String → String → HostRequest
unfolding machine_type
host_request zone my_uuid = record {
  name = instance_name;
  machine_type = machine_type zone "";
  network_interfaces = (record { type = "ONE_TO_ONE_NAT"; name = "External NAT" } ∷ []) ∷ [];
  disks =
      record {
        auto_delete = true;
        boot = true;
        type = "PERSISTENT";
        disk_name = "my-root-pd-" <> my_uuid;
        source_image =
            "https://www.googleapis.com/compute/v1/projects/eip-images/global/images/debian-9-drawfork-v20180423";
      }
      ∷ [];
}

-- `strings.ToUpper(instance.Status) != "RUNNING"`
abbrev pub is_running : Host → Bool
is_running h = to_upper h.status == "RUNNING"

-- `remote.AddHostnameIP`, if the instance has an address.
unfoldable pub note_external_ip : {S : Type 0} → String → Host → Action (World S) (Unit {0})
unfolding get_external_ip add_hostname_ip
note_external_ip host instance' w =
    let ip = get_external_ip instance'.network_interfaces in
    let noted = add_hostname_ip host ip w in if not (ip == "") then noted else (tt, w)

-- The flags of ginkgo for a list of tests.
unfoldable pub ginkgo_flags_of : Flags → List String → String
unfolding tests_to_ginkgo_focus
ginkgo_flags_of flags tests =
    if not (is_empty tests)
    then flags.ginkgo_flags <> (" " <> tests_to_ginkgo_focus tests)
    else flags.ginkgo_flags
