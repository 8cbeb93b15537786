-- ===== src/Go/Path/Laws.antt =====
-- Laws of `Join` and `Base` of `path/filepath`, for a name without a slash.
use Prim.Native.String.{[] as ε, ◌∷◌ as ◌▹◌}
use text.Mathlib.TextLemmas.{nil-append, cons-append, append_assoc, append-eq-nil_iff}
use compute_persistent_disk.Prelude.{
  ℕ, String, ◌<>◌, Char, code, ◌≡◌, ◌≢◌, ◌⊎◌, inl, inr, refl, sym, subst, ap, ◌∙◌, Option, none,
  some, arith, ◌==◌, eq_iff, Bool-cases, false, [], ◌∷◌,
}
use compute_persistent_disk.Go.Strings.{split, join, strip_prefix, trim_prefix}
use compute_persistent_disk.Go.Strings.Laws.{Lacks, split-snoc}
use compute_persistent_disk.Go.Path.{clean, clean_onto, join_path, base_name}

abbrev first_code : String → ℕ
first_code ε = 0
first_code (c ▹ s) = code c

-- A component that starts with a character other than a dot is none of those that `Clean` drops.
pub ne_dots :
    (c : Char) (name other : String)
    → (first_code other ≡ 0) ⊎ (first_code other ≡ b'.')
    → code c ≢ 0
    → code c ≢ b'.'
    → ((c ▹ name) == other) ≡ false
ne_dots c name other h z d = elim (Bool-cases ((c ▹ name) == other)) [
  | inl e ↦
      let same : code c ≡ first_code other = ap first_code ((eq_iff (c ▹ name) other).0 e) in
      absurd (ground (arith, z, d))
  | inr e ↦ e
]

clean-rooted :
    (t : String) → clean ("/tmp" <> t) ≡ "/" <> join "/" (clean_onto [] (split b'/' ("/tmp" <> t)))
unfolding clean
clean-rooted t =
    subst (λ p. clean p ≡ "/" <> join "/" (clean_onto [] (split b'/' p)))
      (sym (cons-append "/" "tmp" t)) refl

pieces :
    (name : String)
    → Lacks b'/' name
    → split b'/' ("/tmp" <> ("/" <> name)) ≡ "" ∷ "tmp" ∷ name ∷ []
unfolding split
pieces name h = split-snoc "/" "/tmp" name h

tmp_slash : (name : String) → "/" <> ("tmp" <> ("/" <> name)) ≡ "/tmp" <> ("/" <> name)
tmp_slash name = sym (append_assoc "/" "tmp" ("/" <> name))

-- A name in a directory under the root.
pub join_path-tmp :
    (c : Char) (name : String)
    → code c ≢ 0
    → code c ≢ b'.'
    → Lacks b'/' (c ▹ name)
    → join_path "/tmp" (c ▹ name) ≡ "/tmp" <> ("/" <> (c ▹ name))
unfolding join_path join
join_path-tmp c name z d h =
    clean-rooted ("/" <> (c ▹ name))
    ∙ ap (λ ps. "/" <> join "/" (clean_onto [] ps)) (pieces (c ▹ name) h)
    ∙ rw
        (
          ne_dots c name "" (inl refl) z d,
          ne_dots c name "." (inr refl) z d,
          ne_dots c name ".." (inr refl) z d,
        )
        (tmp_slash (c ▹ name))

no_tmp : (t : String) → (("/tmp" <> t) == "") ≡ false
no_tmp t = elim (Bool-cases (("/tmp" <> t) == "")) [
  | inl e ↦ let nil : "/tmp" ≡ ε = (append-eq-nil_iff.0 ((eq_iff ("/tmp" <> t) "").0 e)).0 in cc
  | inr e ↦ e
]

pub base_name-tmp :
    (c : Char) (name : String)
    → code c ≢ 0
    → code c ≢ b'.'
    → Lacks b'/' (c ▹ name)
    → base_name ("/tmp" <> ("/" <> (c ▹ name))) ≡ (c ▹ name)
unfolding base_name
base_name-tmp c name z d h =
    rw (no_tmp ("/" <> (c ▹ name)), pieces (c ▹ name) h, ne_dots c name "" (inl refl) z d)

strip_prefix-append : (p s : String) → strip_prefix p (p <> s) ≡ some s
strip_prefix-append ε s = rw nil-append
strip_prefix-append (c ▹ p) s = rw cons-append (ground (arith, strip_prefix-append p s))

abbrev or_all : String → Option String → String
or_all s o = elim o [ none ↦ s | some rest ↦ rest ]

pub trim_prefix-append : (p s : String) → trim_prefix (p <> s) p ≡ s
unfolding trim_prefix
trim_prefix-append p s = ap (or_all (p <> s)) (strip_prefix-append p s)
