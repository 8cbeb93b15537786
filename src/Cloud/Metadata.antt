-- ===== src/Cloud/Metadata.antt =====
-- `getProjectAndZoneFromMetadata` of pkg/gce-cloud-provider/gce.go, over the metadata server, which is
-- a parameter.
use compute_persistent_disk.Prelude.{String, ◌≡◌, sym, ap, ◌∙◌, subst, List, [], ◌∷◌, arith}
use compute_persistent_disk.Go.Strings.{split, join}
use compute_persistent_disk.Go.Strings.Laws.{Lacks, AllLack, join-split, split-AllLack}
use compute_persistent_disk.Go.Error.{errorf, str, end, Answer, answer, refused}
use compute_persistent_disk.Go.Handler.{Action, Body, next, ◌>>=◌, give, call, run}

pub record Metadata : Type 1 where
  pub State : Type 0
  pub get : String → Action State (Answer String)
  pub project_id : Action State (Answer String)

-- `parts[3]`, where there are four parts.
abbrev pub zone_of : String → List String → Answer String
zone_of result (_ ∷ _ ∷ _ ∷ zone ∷ []) = answer zone
zone_of result _ = refused (errorf "unexpected response: %s" (str result end))

module _ (metadata : Metadata) where
  open metadata use {State}

  abbrev or_refused : {A B : Type 0} → Answer A → Body State (Answer B) A
  or_refused (answer a) s = (next a, s)
  or_refused (refused e) s = give (refused e) s

  unfoldable pub get_project_and_zone_from_metadata : Action State (Answer (String × String))
  unfolding split
  get_project_and_zone_from_metadata = run do
    response ← call (metadata.get "instance/zone")
    result ← or_refused response
    zone ← or_refused (zone_of result (split b'/' result))
    identified ← call metadata.project_id
    project ← or_refused identified
    give (answer (project, zone))

zone_of-answer :
    (result : String) (ps : List String) (zone : String)
    → zone_of result ps ≡ answer zone
    → (a b c : String) × (ps ≡ a ∷ b ∷ c ∷ zone ∷ [])
zone_of-answer result [] zone h = cc
zone_of-answer result (a ∷ []) zone h = cc
zone_of-answer result (a ∷ b ∷ []) zone h = cc
zone_of-answer result (a ∷ b ∷ c ∷ []) zone h = cc
zone_of-answer result (a ∷ b ∷ c ∷ d ∷ []) zone h = (a, b, c, cc)
zone_of-answer result (a ∷ b ∷ c ∷ d ∷ e ∷ ps) zone h = cc

-- A response with exactly three slashes, the last of them in front of the zone.
abbrev pub EndsInZone : String → String → Type 0
EndsInZone result zone =
    (a b c : String) × (result ≡ join "/" (a ∷ b ∷ c ∷ zone ∷ []))
    × Lacks b'/' a
    × Lacks b'/' b
    × Lacks b'/' c
    × Lacks b'/' zone

zone_of-split :
    (result zone : String)
    → zone_of result (split b'/' result) ≡ answer zone
    → EndsInZone result zone
zone_of-split result zone read =
    let (a, b, c, parts) = zone_of-answer result (split b'/' result) zone read in
    let lacks : AllLack b'/' (a ∷ b ∷ c ∷ zone ∷ []) =
      subst (AllLack b'/') parts (split-AllLack b'/' result) in
    (
      a,
      b,
      c,
      sym (join-split "/" result) ∙ ap (join "/") parts,
      lacks.0,
      lacks.1.0,
      lacks.1.1.0,
      lacks.1.1.1.0,
    )

-- Where the metadata server answers the path of a zone, and the project and the zone are read,
-- the path has exactly three slashes, and the zone is what follows the last one.
pub zone_from_metadata :
    (metadata : Metadata) (s : metadata.State) (result project zone : String)
    → (metadata.get "instance/zone" s).0 ≡ answer result
    → (get_project_and_zone_from_metadata metadata s).0 ≡ answer (project, zone)
    → EndsInZone result zone
unfolding get_project_and_zone_from_metadata
zone_from_metadata metadata s result project zone g h = zone_of-split result zone (ground arith)
