-- ===== src/Go/Strings/Laws.antt =====
-- Laws of `split` and `join`.
use Prim.Native.String.{[] as ε, ◌∷◌ as ◌▹◌}
use text.Mathlib.TextEquality.{Char-path}
use text.Mathlib.TextLemmas.{nil-append, cons-append}
use compute_persistent_disk.Prelude.{
  ℕ, String, ◌<>◌, Char, code, ◌≡◌, ◌≢◌, refl, ap, ◌∙◌, List, [], ◌∷◌, ◌++◌, arith, nat_eq,
  Bool-cases, inl, inr, true, false,
}
use compute_persistent_disk.Go.Strings.{push_head, split, join}

-- The character does not occur in the text.
abbrev pub Lacks : ℕ → String → Type 0
Lacks sep ε = Unit {0}
Lacks sep (c ▹ s) = (nat_eq (code c) sep ≡ false) × Lacks sep s

abbrev pub AllLack : ℕ → List String → Type 0
AllLack sep [] = Unit {0}
AllLack sep (p ∷ ps) = Lacks sep p × AllLack sep ps

pub split_of_Lacks : (sep : ℕ) (s : String) → Lacks sep s → split sep s ≡ s ∷ []
unfolding split
split_of_Lacks sep ε h = refl
split_of_Lacks sep (c ▹ s) (h, hs) = rw (h, split_of_Lacks sep s hs)

push_head-ne-nil : (c : Char) (ps : List String) → push_head c ps ≢ []
push_head-ne-nil c [] e = cc
push_head-ne-nil c (p ∷ ps) e = cc

pub split-ne-nil : (sep : ℕ) (s : String) → split sep s ≢ []
unfolding split
split-ne-nil sep ε e = cc
split-ne-nil sep (c ▹ s) e = elim (Bool-cases (nat_eq (code c) sep)) [
  | inl h ↦ let q : (ε ∷ split sep s) ≡ [] = rw h at e in cc
  | inr h ↦ push_head-ne-nil c (split sep s) (rw h at e)
]

pub split-append :
    (sep : ℕ) (p : String) (c : Char) (s : String)
    → Lacks sep p
    → nat_eq (code c) sep ≡ true
    → split sep (p <> (c ▹ s)) ≡ p ∷ split sep s
unfolding split
split-append sep ε c s hp hc = rw (nil-append, hc)
split-append sep (d ▹ p) c s (h, hp) hc = rw (cons-append, h, split-append sep p c s hp hc)

join-push_head :
    (sep : String) (c : Char) (ps : List String)
    → ps ≢ []
    → join sep (push_head c ps) ≡ c ▹ join sep ps
unfolding join
join-push_head sep c [] h = absurd (h refl)
join-push_head sep c (p ∷ []) h = refl
join-push_head sep c (p ∷ q ∷ ps) h = cons-append c p _

join-nil-cons : (sep : String) (ps : List String) → ps ≢ [] → join sep (ε ∷ ps) ≡ sep <> join sep ps
unfolding join
join-nil-cons sep [] h = absurd (h refl)
join-nil-cons sep (p ∷ ps) h = nil-append _

-- Joining the pieces gives the text again.
pub join-split : (c : Char) (s : String) → join (c ▹ ε) (split (code c) s) ≡ s
unfolding split
join-split c ε = unfold join in refl
join-split c (d ▹ s) = elim (Bool-cases (nat_eq (code d) (code c))) [
  | inl h ↦
      rw (h, join-nil-cons (c ▹ ε) (split (code c) s) (split-ne-nil (code c) s), join-split c s)
        (cons-append c ε s ∙ rw (nil-append, Char-path d c (ground arith)))
  | inr h ↦
      rw (h, join-push_head (c ▹ ε) d (split (code c) s) (split-ne-nil (code c) s), join-split c s)
]

push_head-Lacks :
    (sep : ℕ) (c : Char) (ps : List String)
    → nat_eq (code c) sep ≡ false
    → AllLack sep ps
    → AllLack sep (push_head c ps)
push_head-Lacks sep c [] h hs = ((h, tt), tt)
push_head-Lacks sep c (p ∷ ps) h hs = ((h, hs.0), hs.1)

-- No piece holds the separator.
pub split-AllLack : (sep : ℕ) (s : String) → AllLack sep (split sep s)
unfolding split
split-AllLack sep ε = (tt, tt)
split-AllLack sep (c ▹ s) = elim (Bool-cases (nat_eq (code c) sep)) [
  | inl h ↦ rw h (tt, split-AllLack sep s)
  | inr h ↦ rw h (push_head-Lacks sep c (split sep s) h (split-AllLack sep s))
]

push_head-append :
    (c : Char) (ps qs : List String) → ps ≢ [] → push_head c (ps ++ qs) ≡ push_head c ps ++ qs
push_head-append c [] qs h = absurd (h refl)
push_head-append c (p ∷ ps) qs h = refl

-- A separator parts the pieces.
pub split-parts :
    (c : Char) (p t : String)
    → split (code c) (p <> ((c ▹ ε) <> t)) ≡ split (code c) p ++ split (code c) t
unfolding split
split-parts c ε t =
    let same : nat_eq (code c) (code c) ≡ true = ground arith in
    rw (nil-append, cons-append, nil-append, same)
split-parts c (d ▹ p) t = elim (Bool-cases (nat_eq (code d) (code c))) [
  | inl e ↦ rw (cons-append, e, split-parts c p t)
  | inr e ↦
      rw (cons-append, e, split-parts c p t)
        (push_head-append d (split (code c) p) (split (code c) t) (split-ne-nil (code c) p))
]

-- A last piece without a separator.
pub split-snoc :
    (c : Char) (p t : String)
    → Lacks (code c) t
    → split (code c) (p <> ((c ▹ ε) <> t)) ≡ split (code c) p ++ t ∷ []
split-snoc c p t h =
    split-parts c p t ∙ ap (λ ps. split (code c) p ++ ps) (split_of_Lacks (code c) t h)

pub Lacks-append : (sep : ℕ) (s t : String) → Lacks sep s → Lacks sep t → Lacks sep (s <> t)
Lacks-append sep ε t h k = rw nil-append k
Lacks-append sep (c ▹ s) t (h, hs) k = rw cons-append (h, Lacks-append sep s t hs k)
