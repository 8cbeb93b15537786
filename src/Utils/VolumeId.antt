-- ===== src/Utils/VolumeId.antt =====
-- Volume IDs, `{zone}/{name}`: what pkg/utils/utils.go puts together and takes apart.
use Prim.Native.String.{[] as ε}
use text.Mathlib.TextLemmas.{nil-append, cons-append, append-eq-nil_iff}
use compute_persistent_disk.Prelude.{
  String, ◌<>◌, false, inl, inr, Bool-cases, ◌==◌, eq_iff, ◌≡◌, ◌≢◌, ◌↔◌, refl, sym, ap, ◌∙◌, subst,
  List, [], ◌∷◌, ◌++◌,
}
use compute_persistent_disk.Go.Strings.{split, join}
use compute_persistent_disk.Go.Strings.Laws.{
  Lacks, AllLack, split_of_Lacks, split-append, split-parts, join-split, split-AllLack,
  split-ne-nil,
}
use compute_persistent_disk.Go.Error.{ok, err, panic, errorf, str, end}
use compute_persistent_disk.Utils.{split_zone_name_id, combine_volume_id, zone_and_name}

-- A volume ID that splits is the zone and the name around a slash, and neither holds one.
abbrev pub IsIdOf : String → String → String → Type 0
IsIdOf id zone name = (id ≡ combine_volume_id zone name) × Lacks b'/' zone × Lacks b'/' name

split-combine :
    (zone name : String)
    → Lacks b'/' zone
    → split b'/' (combine_volume_id zone name) ≡ zone ∷ split b'/' name
unfolding combine_volume_id
split-combine zone name h =
    ap (λ t. split b'/' (zone <> t))
      (cons-append "/" ε name ∙ ap (λ t. String.◌∷◌ "/" t) (nil-append name))
    ∙ split-append b'/' zone "/" name h refl

two_pieces : (id zone name : String) → split b'/' id ≡ zone ∷ name ∷ [] → IsIdOf id zone name
unfolding combine_volume_id join
two_pieces id zone name h =
    let lacks : AllLack b'/' (zone ∷ name ∷ []) = rw h at (split-AllLack b'/' id) in
    (sym (join-split "/" id) ∙ ap (join "/") h, lacks.0, lacks.1.0)

-- Inversion of the test on the number of pieces.
zone_and_name-ok :
    (id : String) (ps : List String) {zone name : String}
    → zone_and_name id ps ≡ ok (zone, name)
    → ps ≡ zone ∷ name ∷ []
zone_and_name-ok id [] h = cc
zone_and_name-ok id (p ∷ []) h = cc
zone_and_name-ok id (p ∷ q ∷ []) h = cc
zone_and_name-ok id (p ∷ q ∷ r ∷ ps) h = cc

split_zone_name_id-of_IsIdOf :
    (id zone name : String) → IsIdOf id zone name → split_zone_name_id id ≡ ok (zone, name)
unfolding split_zone_name_id
split_zone_name_id-of_IsIdOf id zone name (e, hz, hn) = ap (zone_and_name id) (
    ap (split b'/') e
    ∙ split-combine zone name hz
    ∙ ap (λ ps. zone ∷ ps) (split_of_Lacks b'/' name hn))

-- `SplitZoneNameId` answers a zone and a name exactly for the ID that `CombineVolumeId` makes of
-- them, where neither of the two holds a slash.
pub split_zone_name_id_iff :
    (id zone name : String) → (split_zone_name_id id ≡ ok (zone, name)) ↔ IsIdOf id zone name
split_zone_name_id_iff id zone name = (
  λ h.
      two_pieces id zone name
        (zone_and_name-ok id (split b'/' id) (unfold split_zone_name_id in h)),
  split_zone_name_id-of_IsIdOf id zone name,
)

halves :
    (ps qs : List String) (x y : String)
    → ps ≢ []
    → qs ≢ []
    → ps ++ qs ≡ x ∷ y ∷ []
    → (ps ≡ x ∷ []) × (qs ≡ y ∷ [])
halves [] qs x y m n h = absurd (m refl)
halves (p ∷ []) qs x y m n h = (cc, cc)
halves (p ∷ q ∷ []) qs x y m n h = absurd (n cc)
halves (p ∷ q ∷ r ∷ ps) qs x y m n h = cc

one_piece : (s x : String) → split b'/' s ≡ x ∷ [] → x ≡ s
unfolding join
one_piece s x h = sym (ap (join "/") h) ∙ join-split "/" s

-- The ID that is made of a zone and a name splits into these or not at all, whatever they hold.
pub split-combine_unique :
    (zone name : String) {z n : String}
    → split_zone_name_id (combine_volume_id zone name) ≡ ok (z, n)
    → (z ≡ zone) × (n ≡ name)
unfolding combine_volume_id
split-combine_unique zone name {z} {n} h =
    let pieces =
      zone_and_name-ok (zone <> ("/" <> name)) (split b'/' (zone <> ("/" <> name))) {zone = z}
        {name = n} (unfold split_zone_name_id in h) in
    let (first, second) =
      halves (split b'/' zone) (split b'/' name) z n (split-ne-nil b'/' zone)
        (split-ne-nil b'/' name) (sym (split-parts "/" zone name) ∙ pieces) in
    (one_piece zone z first, one_piece name n second)

many_pieces :
    (id zone name : String) (ps : List String)
    → split b'/' name ≡ ps
    → ¬ Lacks b'/' name
    → zone_and_name id (zone ∷ ps)
      ≡ err (errorf "Failed to get id components. Expected {zone}/{name}. Got: %s" (str id end))
unfolding join
many_pieces id zone name [] e h = absurd (split-ne-nil b'/' name e)
many_pieces id zone name (p ∷ []) e h =
    let lacks : AllLack b'/' (p ∷ []) = rw e at (split-AllLack b'/' name) in
    absurd (h (subst (Lacks b'/') (sym (ap (join "/") e) ∙ join-split "/" name) (lacks.0)))
many_pieces id zone name (p ∷ q ∷ ps) e h = refl

-- The ID that is made of a zone without a slash and a name with one is refused by
-- `SplitZoneNameId`.
pub split_zone_name_id-slash :
    (zone name : String)
    → Lacks b'/' zone
    → ¬ Lacks b'/' name
    → let id = combine_volume_id zone name in
      split_zone_name_id id
      ≡ err (errorf "Failed to get id components. Expected {zone}/{name}. Got: %s" (str id end))
unfolding split_zone_name_id
split_zone_name_id-slash zone name hz h =
    ap (zone_and_name _) (split-combine zone name hz) ∙ many_pieces _ zone name _ refl h

zone_and_name-ne-panic : (id : String) (ps : List String) → zone_and_name id ps ≢ panic
zone_and_name-ne-panic id [] h = cc
zone_and_name-ne-panic id (p ∷ []) h = cc
zone_and_name-ne-panic id (p ∷ q ∷ []) h = cc
zone_and_name-ne-panic id (p ∷ q ∷ r ∷ ps) h = cc

pub split_zone_name_id-ne-panic : (id : String) → split_zone_name_id id ≢ panic
unfolding split_zone_name_id
split_zone_name_id-ne-panic id = zone_and_name-ne-panic id (split b'/' id)

pub combine_volume_id-ne-nil : (zone name : String) → (combine_volume_id zone name == "") ≡ false
unfolding combine_volume_id
combine_volume_id-ne-nil zone name = elim (Bool-cases (combine_volume_id zone name == "")) [
  | inl e ↦
      let inner = (append-eq-nil_iff.0 ((eq_iff (combine_volume_id zone name) "").0 e)).1 in
      let slash : "/" ≡ ε = (append-eq-nil_iff.0 inner).0 in cc
  | inr e ↦ e
]
