-- ===== src/Go/Strings/Cut.antt =====
-- The cut of a text at the first occurrence of another.
use Prim.Native.String.{[] as ε, ◌∷◌ as ◌▹◌}
use text.Mathlib.TextEquality.{Char-path}
use text.Mathlib.TextLemmas.{nil-append, cons-append}
use compute_persistent_disk.Prelude.{
  String, ◌<>◌, Char, code, ◌≡◌, sym, ap, ◌∙◌, inl, inr, some, List, [], ◌∷◌, arith, nat_eq,
  Bool-cases, Option-cases,
}
use compute_persistent_disk.Go.Strings.{strip_prefix, push_head, cut_at, split_two}

strip_prefix-some : (p s r : String) → strip_prefix p s ≡ some r → s ≡ p <> r
strip_prefix-some ε s r h = rw nil-append (cc)
strip_prefix-some (c ▹ p) ε r h = cc
strip_prefix-some (c ▹ p) (d ▹ s) r h = elim (Bool-cases (nat_eq (code c) (code d))) [
  | inl e ↦
      let later = strip_prefix-some p s r (ground arith) in
      let same : c ≡ d = Char-path c d (ground arith) in rw cons-append (cc)
  | inr e ↦ absurd (ground arith)
]

push_head-two :
    (c : Char) (ps : List String) (p q : String)
    → push_head c ps ≡ p ∷ q ∷ []
    → (p' : String) × (p ≡ c ▹ p') × (ps ≡ p' ∷ q ∷ [])
push_head-two c [] p q h = cc
push_head-two c (x ∷ ys) p q h = (x, cc, cc)

-- The two pieces with the separator between them are the text.
pub split_two-two : (sep s p q : String) → split_two sep s ≡ p ∷ q ∷ [] → s ≡ p <> (sep <> q)
unfolding split_two
split_two-two sep ε p q h = cc
split_two-two sep (c ▹ s) p q h = elim (Option-cases (strip_prefix sep (c ▹ s))) [
  | inl e ↦
      let (p', first, rest) =
        push_head-two c (split_two sep s) p q (sym (ap (cut_at c (split_two sep s)) e) ∙ h) in
      let later = split_two-two sep s p' q rest in rw (first, cons-append) (cc)
  | inr (rest, e) ↦
      let two : ε ∷ rest ∷ [] ≡ p ∷ q ∷ [] = sym (ap (cut_at c (split_two sep s)) e) ∙ h in
      let whole = strip_prefix-some sep (c ▹ s) rest e in let empty = nil-append (sep <> q) in cc
]
