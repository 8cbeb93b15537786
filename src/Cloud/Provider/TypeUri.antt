-- ===== src/Cloud/Provider/TypeUri.antt =====
-- The URI of a disk type, and the type that is read back from it.
use Prim.Native.String.{[] as ε, ◌∷◌ as ◌▹◌}
use text.Mathlib.TextLemmas.{nil-append, cons-append, append_assoc}
use compute_persistent_disk.Prelude.{
  String, ◌<>◌, code, ◌≡◌, refl, ap, ◌∙◌, List, [], ◌∷◌, some, get_last?, nat_eq, Bool-cases, inl,
  inr,
}
use compute_persistent_disk.Go.Strings.{split}
use compute_persistent_disk.Go.Strings.Laws.{Lacks, split_of_Lacks}
use compute_persistent_disk.Cloud.Provider.{last_component, get_disk_type_uri}

-- At least two pieces, and the last one.
abbrev EndsIn : String → List String → Type 0
EndsIn t ps =
    (q r : String) × (rs : List String) × (ps ≡ q ∷ r ∷ rs) × (get_last? (r ∷ rs) ≡ some t)

split-EndsIn : (p t : String) → Lacks b'/' t → EndsIn t (split b'/' (p <> ("/" <> t)))
unfolding split
split-EndsIn ε t h =
    (ε, t, [], rw (nil-append, cons-append, nil-append, split_of_Lacks b'/' t h), refl)
split-EndsIn (d ▹ p) t h =
    let (q, r, rs, e, last) = split-EndsIn p t h in
    elim (Bool-cases (nat_eq (code d) b'/')) [
      | inl slash ↦ (ε, q, r ∷ rs, rw (cons-append, slash, e), last)
      | inr other ↦ (d ▹ q, r, rs, rw (cons-append, other, e), last)
    ]

-- The last component of a path is what follows its last slash.
last_component-append : (p t : String) → Lacks b'/' t → last_component (p <> ("/" <> t)) ≡ t
unfolding last_component
last_component-append p t h = let (q, r, rs, e, last) = split-EndsIn p t h in rw (e, last)

uri-slash :
    (project zone disk_type : String)
    → get_disk_type_uri project zone disk_type
      ≡ ("projects/" <> (project <> ("/zones/" <> (zone <> "/diskTypes")))) <> ("/" <> disk_type)
unfolding get_disk_type_uri
uri-slash project zone disk_type =
    ap (λ u. "projects/" <> (project <> ("/zones/" <> (zone <> u))))
      (append_assoc "/diskTypes" "/" disk_type)
    ∙ simp append_assoc

-- The last component of the URI of a disk type is that type, if it holds no slash.
pub last_component-get_disk_type_uri :
    (project zone disk_type : String)
    → Lacks b'/' disk_type
    → last_component (get_disk_type_uri project zone disk_type) ≡ disk_type
last_component-get_disk_type_uri project zone disk_type h =
    ap last_component (uri-slash project zone disk_type)
    ∙ last_component-append ("projects/" <> (project <> ("/zones/" <> (zone <> "/diskTypes"))))
        disk_type h
