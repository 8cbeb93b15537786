-- ===== src/Remote/Workspace.antt =====
-- The name of a workspace directory on a host, of test/remote/remote/remote.go, and the time in it.
use Prim.Native.String.{[] as ε, ◌∷◌ as ◌▹◌}
use compute_persistent_disk.Prelude.{
  String, ◌<>◌, Char, code, Bool, true, false, ◌&&◌, List, [], ◌∷◌, leb, nat_eq, if◌then◌else◌,
}
use compute_persistent_disk.Go.Path.{join_path, base_name}
use compute_persistent_disk.Go.Strings.{trim_prefix}
use compute_persistent_disk.Go.Handler.{Action}
use compute_persistent_disk.Remote.{Machine, World, on}

abbrev pub workspace_dir_prefix : String
workspace_dir_prefix = "gce-pd-e2e-"

abbrev pub timestamp_format : String
timestamp_format = "20060102T150405"

abbrev pub is_digit : Char → Bool
is_digit c = leb b'0' (code c) && leb (code c) b'9'

-- Whether a text matches a list of tests of its characters, one by one.
unfoldable pub matches : List (Char → Bool) → String → Bool
matches [] ε = true
matches [] (c ▹ s) = false
matches (t ∷ ts) ε = false
matches (t ∷ ts) (c ▹ s) = let later = matches ts s in if t c then later else false

-- `^\d{8}T\d{6}$`
abbrev pub timestamp_pattern : List (Char → Bool)
timestamp_pattern =
    is_digit
    ∷ is_digit
    ∷ is_digit
    ∷ is_digit
    ∷ is_digit
    ∷ is_digit
    ∷ is_digit
    ∷ is_digit
    ∷ (λ c. nat_eq (code c) b'T')
    ∷ is_digit
    ∷ is_digit
    ∷ is_digit
    ∷ is_digit
    ∷ is_digit
    ∷ is_digit
    ∷ []

module _ (machine : Machine) where
  unfoldable pub get_timestamp : Action (World machine.State) String
  get_timestamp = on (machine.now timestamp_format)

  unfoldable pub new_workspace_dir : Action (World machine.State) String
  unfolding get_timestamp join_path
  new_workspace_dir w =
      let (timestamp, w') = get_timestamp w in
      (join_path "/tmp" (workspace_dir_prefix <> timestamp), w')

  unfoldable pub get_timestamp_from_workspace_dir : String → Action (World machine.State) String
  unfolding get_timestamp trim_prefix base_name matches
  get_timestamp_from_workspace_dir dir w =
      let dir_timestamp = trim_prefix (base_name dir) workspace_dir_prefix in
      let fallback = get_timestamp w in
      if matches timestamp_pattern dir_timestamp then (dir_timestamp, w) else fallback
