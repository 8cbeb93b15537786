-- ===== src/Remote/Timestamp.antt =====
-- The time in the name of a workspace directory of the remote runner.
use Prim.Native.String.{[] as ε, ◌∷◌ as ◌▹◌}
use text.Mathlib.TextLemmas.{cons-append}
use compute_persistent_disk.Prelude.{
  String, ◌<>◌, Char, code, Bool, true, false, ◌≡◌, refl, sym, ap, ◌∙◌, List, [], ◌∷◌, arith,
  nat_eq, Bool-cases, inl, inr,
}
use compute_persistent_disk.Go.Path.{base_name, join_path}
use compute_persistent_disk.Go.Path.Laws.{join_path-tmp, base_name-tmp, trim_prefix-append}
use compute_persistent_disk.Go.Strings.{split, trim_prefix}
use compute_persistent_disk.Go.Strings.Laws.{Lacks, Lacks-append, split-AllLack}
use compute_persistent_disk.Remote.{Machine, World}
use compute_persistent_disk.Remote.Workspace.{
  is_digit, get_timestamp, workspace_dir_prefix, timestamp_format, matches, timestamp_pattern,
  new_workspace_dir, get_timestamp_from_workspace_dir,
}

-- None of the tests lets a slash through.
abbrev NoSlash : List (Char → Bool) → Type 0
NoSlash [] = Unit {0}
NoSlash (t ∷ ts) = ((c : Char) → t c ≡ true → nat_eq (code c) b'/' ≡ false) × NoSlash ts

matches-Lacks :
    (ts : List (Char → Bool)) (s : String) → NoSlash ts → matches ts s ≡ true → Lacks b'/' s
unfolding matches
matches-Lacks ts ε n h = tt
matches-Lacks [] (c ▹ s) n h = cc
matches-Lacks (t ∷ ts) (c ▹ s) (n, ns) h = elim (Bool-cases (t c)) [
  | inl e ↦ (n c e, matches-Lacks ts s ns (rw e at h))
  | inr e ↦ absurd (ground arith)
]

digit : (c : Char) → is_digit c ≡ true → nat_eq (code c) b'/' ≡ false
digit c h = ground arith

letter : (c : Char) → nat_eq (code c) b'T' ≡ true → nat_eq (code c) b'/' ≡ false
letter c h = ground arith

timestamp_pattern-NoSlash : NoSlash timestamp_pattern
timestamp_pattern-NoSlash = (
  digit,
  (
    digit,
    (
      digit,
      (
        digit,
        (
          digit,
          (
            digit,
            (digit, (digit, (letter, (digit, (digit, (digit, (digit, (digit, (digit, tt))))))))),
          ),
        ),
      ),
    ),
  ),
)

prefixed : (t : String) → workspace_dir_prefix <> t ≡ ("g" ▹ ("ce-pd-e2e-" <> t))
prefixed t = cons-append "g" "ce-pd-e2e-" t

prefixed-Lacks : (t : String) → Lacks b'/' t → Lacks b'/' ("g" ▹ ("ce-pd-e2e-" <> t))
unfolding split
prefixed-Lacks t h =
    (refl, Lacks-append b'/' "ce-pd-e2e-" t ((split-AllLack b'/' "ce-pd-e2e-").0) h)

-- Behind the directory and the prefix there is the name.
stripped :
    (t : String)
    → Lacks b'/' t
    → trim_prefix (base_name (join_path "/tmp" (workspace_dir_prefix <> t))) workspace_dir_prefix
      ≡ t
stripped t h =
    let lacks = prefixed-Lacks t h in
    ap (λ p. trim_prefix (base_name (join_path "/tmp" p)) workspace_dir_prefix) (prefixed t)
    ∙ ap (λ p. trim_prefix (base_name p) workspace_dir_prefix)
        (join_path-tmp "g" ("ce-pd-e2e-" <> t) (omega arith) (omega arith) lacks)
    ∙ ap (λ p. trim_prefix p workspace_dir_prefix)
        (base_name-tmp "g" ("ce-pd-e2e-" <> t) (omega arith) (omega arith) lacks ∙ sym (prefixed t))
    ∙ trim_prefix-append workspace_dir_prefix t

-- Where the clock gives a time of the pattern (eight digits, T, six digits),
-- `GetTimestampFromWorkspaceDir` of the directory that `newWorkspaceDir` made at that time gives
-- that time, in any state, and does not read the clock.
pub workspace_timestamp :
    (machine : Machine) (w u : World machine.State)
    → matches timestamp_pattern (machine.now timestamp_format w.machine).0 ≡ true
    → get_timestamp_from_workspace_dir machine (new_workspace_dir machine w).0 u
      ≡ ((machine.now timestamp_format w.machine).0, u)
unfolding get_timestamp_from_workspace_dir new_workspace_dir get_timestamp
workspace_timestamp machine w u h =
    let timestamp : String = (machine.now timestamp_format w.machine).0 in
    rw (
      stripped timestamp (matches-Lacks timestamp_pattern timestamp timestamp_pattern-NoSlash h),
      h,
    )
