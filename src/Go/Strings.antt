-- ===== src/Go/Strings.antt =====
-- The functions of Go's package `strings` that the driver calls, over native strings. A native
-- string is a list of code points, as a Go string of valid UTF-8 is of runes.
pub mod Laws
pub mod Cut
use Prim.Native.String.{[] as ε, ◌∷◌ as ◌▹◌, char_at}
use compute_persistent_disk.Prelude.{
  ℕ, ◌-◌, String, ◌<>◌, Char, code, Bool, true, false, ◌&&◌, List, [], ◌∷◌, Option, none, some, leb,
  nat_eq, if◌then◌else◌,
}

-- Puts a character in front of the first piece.
abbrev push_head : Char → List String → List String
push_head c [] = (c ▹ ε) ∷ []
push_head c (p ∷ ps) = (c ▹ p) ∷ ps

-- `strings.Split(s, sep)` for a separator of one character, given by its code point.
unfoldable pub split : ℕ → String → List String
split sep ε = ε ∷ []
split sep (c ▹ s) = let ps = split sep s in if nat_eq (code c) sep then ε ∷ ps else push_head c ps

-- What is left of the text behind the prefix, if it has that prefix.
abbrev pub strip_prefix : String → String → Option String
strip_prefix ε s = some s
strip_prefix (c ▹ p) ε = none
strip_prefix (c ▹ p) (d ▹ s) = if nat_eq (code c) (code d) then strip_prefix p s else none

-- `strings.HasPrefix(s, p)`
abbrev pub has_prefix : String → String → Bool
has_prefix s p = elim (strip_prefix p s) [ none ↦ false | some rest ↦ true ]

-- The pieces of a text, given those of it without its first character, and what the separator
-- leaves of it if it starts with that.
abbrev cut_at : Char → List String → Option String → List String
cut_at c ps none = push_head c ps
cut_at c ps (some rest) = ε ∷ rest ∷ []

-- `strings.SplitN(s, sep, 2)` for a separator that is not empty: a cut at its first occurrence.
unfoldable pub split_two : String → String → List String
split_two sep ε = ε ∷ []
split_two sep (c ▹ s) = let ps = split_two sep s in cut_at c ps (strip_prefix sep (c ▹ s))

-- `strings.Contains(s, p)`
unfoldable pub contains : String → String → Bool
contains ε p = has_prefix ε p
contains (c ▹ s) p = let later = contains s p in if has_prefix (c ▹ s) p then true else later

-- `strings.TrimSuffix(s, suffix)` for a suffix of one character, given by its code point.
unfoldable pub trim_suffix : ℕ → String → String
trim_suffix suffix ε = ε
trim_suffix suffix (c ▹ ε) = if nat_eq (code c) suffix then ε else c ▹ ε
trim_suffix suffix (c ▹ d ▹ s) = c ▹ trim_suffix suffix (d ▹ s)

-- `strings.Join(parts, sep)`
unfoldable pub join : String → List String → String
join sep [] = ""
join sep (p ∷ []) = p
join sep (p ∷ q ∷ ps) = p <> (sep <> join sep (q ∷ ps))

-- `unicode.ToLower`, but that a rune outside ASCII whose lower case is outside ASCII too is left
-- alone. Two such runes go to ASCII letters: U+0130 to i, and the sign of Kelvin to k.
unfoldable pub lower : Char → Char
lower c =
    let n = code c in
    if leb 65 n && leb n 90
    then char_at "abcdefghijklmnopqrstuvwxyz" (n - 65)
    else if nat_eq n 0x130
    then "i"
    else if nat_eq n 0x212a
    then "k"
    else c

-- `strings.ToLower`, with the restriction of `lower`. The driver compares the result with texts in
-- ASCII, and for these it does not show.
unfoldable pub to_lower : String → String
unfolding lower
to_lower ε = ε
to_lower (c ▹ s) = lower c ▹ to_lower s

-- `unicode.ToUpper`, with the same restriction. Two runes outside ASCII go to ASCII letters: U+0131
-- to I, and U+017F to S.
unfoldable pub upper : Char → Char
upper c =
    let n = code c in
    if leb 97 n && leb n 122
    then char_at "ABCDEFGHIJKLMNOPQRSTUVWXYZ" (n - 97)
    else if nat_eq n 0x131
    then "I"
    else if nat_eq n 0x17f
    then "S"
    else c

-- `strings.ToUpper`, with the restriction of `upper`, for a result that is compared with a text in ASCII.
unfoldable pub to_upper : String → String
unfolding upper
to_upper ε = ε
to_upper (c ▹ s) = upper c ▹ to_upper s

-- `strings.TrimPrefix(s, p)`
unfoldable pub trim_prefix : String → String → String
trim_prefix s p = elim (strip_prefix p s) [ none ↦ s | some rest ↦ rest ]
