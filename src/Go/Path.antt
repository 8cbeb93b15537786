-- ===== src/Go/Path.antt =====
-- What is used of Go's package `path/filepath`, on Unix.
pub mod Laws
use mathlib.Core.List.{reverse, tail}
use compute_persistent_disk.Prelude.{String, ◌<>◌, ◌||◌, List, [], ◌∷◌, ◌==◌, if◌then◌else◌}
use compute_persistent_disk.Go.Strings.{split, join, has_prefix}

-- The components of a rooted path without `.`, and without `..` and what it undoes. The first
-- argument has those that stand, the last one first.
abbrev pub clean_onto : List String → List String → List String
clean_onto stack [] = reverse stack
clean_onto stack (c ∷ cs) =
    clean_onto (if c == "" || c == "." then stack else if c == ".." then tail stack else c ∷ stack)
      cs

-- What `..` makes of the components before it, in a path that is not rooted.
abbrev climb : List String → List String
climb [] = ".." ∷ []
climb (c ∷ cs) = if c == ".." then ".." ∷ c ∷ cs else cs

-- The same of a path that is not rooted.
abbrev clean_relative : List String → List String → List String
clean_relative stack [] = reverse stack
clean_relative stack (c ∷ cs) =
    clean_relative
      (if c == "" || c == "." then stack else if c == ".." then climb stack else c ∷ stack) cs

-- `filepath.Clean`
unfoldable pub clean : String → String
unfolding split join
clean path =
    let relative = join "/" (clean_relative [] (split b'/' path)) in
    if has_prefix path "/"
    then "/" <> join "/" (clean_onto [] (split b'/' path))
    else if relative == ""
    then "."
    else relative

-- `filepath.Join` of two elements
unfoldable pub join_path : String → String → String
unfolding clean
join_path dir name =
    if dir == "" then (if name == "" then "" else clean name) else clean (dir <> ("/" <> name))

-- The last component that is not empty.
abbrev pub last_component : String → List String → String
last_component found [] = found
last_component found (c ∷ cs) = last_component (if c == "" then found else c) cs

-- `filepath.Base`
unfoldable pub base_name : String → String
unfolding split
base_name path = if path == "" then "." else last_component "/" (split b'/' path)
