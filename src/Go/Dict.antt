-- ===== src/Go/Dict.antt =====
-- Go's `map[string]V`, as an association list. Clients go by the laws.
use compute_persistent_disk.Prelude.{
  String, ◌≡◌, refl, Option, none, some, List, [], ◌∷◌, arith, ◌==◌, eq_iff, if◌then◌else◌,
}

abbrev pub Dict {ℓ} : Type ℓ → Type ℓ
Dict V = List (String × V)

module _ {ℓ} {V : Type ℓ} where
  -- `v, ok := m[key]`
  unfoldable pub lookup : String → Dict V → Option V
  lookup key [] = none
  lookup key ((at_key, value) ∷ entries) = if at_key == key then some value else lookup key entries

  -- `m[key] = value`
  unfoldable pub insert : String → V → Dict V → Dict V
  insert key value [] = (key, value) ∷ []
  insert key value ((at_key, old) ∷ entries) =
      let later = insert key value entries in
      if at_key == key then (key, value) ∷ entries else (at_key, old) ∷ later

  -- `delete(m, key)`
  unfoldable pub erase : String → Dict V → Dict V
  erase key [] = []
  erase key ((at_key, old) ∷ entries) =
      let later = erase key entries in if at_key == key then later else (at_key, old) ∷ later

  pub lookup-insert :
      (key other : String) (value : V) (entries : Dict V)
      → lookup other (insert key value entries)
        ≡ (if key == other then some value else lookup other entries)
  unfolding lookup insert
  lookup-insert key other value [] = refl
  lookup-insert key other value ((at_key, old) ∷ entries) = ground (
    eq_iff at_key key,
    eq_iff at_key other,
    eq_iff key other,
    lookup-insert key other value entries,
    arith,
  )

  pub lookup-erase :
      (key other : String) (entries : Dict V)
      → lookup other (erase key entries) ≡ (if key == other then none else lookup other entries)
  unfolding lookup erase
  lookup-erase key other [] = ground arith
  lookup-erase key other ((at_key, old) ∷ entries) = ground (
    eq_iff at_key key,
    eq_iff at_key other,
    eq_iff key other,
    lookup-erase key other entries,
    arith,
  )
