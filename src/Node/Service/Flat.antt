-- ===== src/Node/Service/Flat.antt =====
-- The node service over `GCEMounter`, and places with more than one mount.
use compute_persistent_disk.Prelude.{
  String, Bool, true, false, not, ◌&&◌, ◌≡◌, ◌∙◌, refl, sym, ap, List, [], ◌∷◌, arith,
}
use compute_persistent_disk.Mount.Gce.{Os, gce_mounter}
use compute_persistent_disk.Mount.Table.{Table, set_stack, is_seen}
use compute_persistent_disk.Mount.Table.Machine.{Mounts}
use compute_persistent_disk.Node.Service.{
  NodeRpc, NodeVerdict, path_of, Served, mounted, unmounted, was_mounted, refused,
}
use compute_persistent_disk.Node.Service.Refines.{
  serve_all, ServedRun, served_none, served_one, all_asked, serve_all_refines,
}

-- On each place only the last mount may be seen.
abbrev pub unseen : List Bool → Bool
unseen [] = true
unseen (seen ∷ below) = not seen && unseen below

abbrev pub covers : List Bool → Bool
covers [] = true
covers (seen ∷ below) = unseen below

abbrev pub IsFlat : Table → Type 0
IsFlat t = (place : String) → covers (t place) ≡ true

set_stack-IsFlat :
    (target : String) (stack : List Bool) (t : Table)
    → covers stack ≡ true
    → IsFlat t
    → IsFlat (set_stack target stack t)
set_stack-IsFlat target stack t h flat place = ground (arith, h, flat place)

unseen-covers :
    (stack : List Bool) → is_seen stack ≡ false → covers stack ≡ true → unseen stack ≡ true
unseen-covers [] h c = refl
unseen-covers (seen ∷ below) h c = ground (arith, h, c)

covers_below :
    (stack : List Bool) {seen : Bool} {below : List Bool}
    → stack ≡ seen ∷ below
    → covers stack ≡ true
    → covers below ≡ true
covers_below stack {below = []} h c = refl
covers_below stack {seen = seen} {below = next ∷ below} h c =
    let same : unseen (next ∷ below) ≡ true = sym (ap covers h) ∙ c in ground (arith, same)

Served-IsFlat :
    {place : String → String} {t : Table} {r : NodeRpc} {v : NodeVerdict} {t' : Table}
    → Served place t r v t'
    → IsFlat t
    → IsFlat t'
Served-IsFlat {place = place} {t = t} (mounted r seen c m h) flat =
    set_stack-IsFlat (place (path_of r)) (seen ∷ t (place (path_of r))) t
      (unseen-covers (t (place (path_of r))) h (flat (place (path_of r)))) flat
Served-IsFlat {place = place} {t = t} (unmounted r seen below c m h) flat =
    set_stack-IsFlat (place (path_of r)) below t
      (covers_below (t (place (path_of r))) h (flat (place (path_of r)))) flat
Served-IsFlat (was_mounted req c h) flat = flat
Served-IsFlat (refused r) flat = flat

ServedRun-IsFlat :
    {place : String → String} {t : Table} {rs : List NodeRpc} {vs : List NodeVerdict} {t' : Table}
    → ServedRun place t rs vs t'
    → IsFlat t
    → IsFlat t'
ServedRun-IsFlat (served_none t) flat = flat
ServedRun-IsFlat (served_one served rest) flat = ServedRun-IsFlat rest (Served-IsFlat served flat)

-- On any machine that treats its mounts as `Mounts` says, where on each place only the last mount
-- may be one that is seen, this is still so after any sequence of RPCs of the node service over
-- `GCEMounter`, in any order and repeated at will, where the path of each request is a known one
-- and the mount options of each request to stage are plain.
pub serve_all-IsFlat :
    (os : Os) (mounts : Mounts os) (rs : List NodeRpc) (s : os.State)
    → all_asked mounts.known mounts.plain rs ≡ true
    → IsFlat (mounts.stacks s)
    → IsFlat (mounts.stacks (serve_all (gce_mounter os) rs s).1)
serve_all-IsFlat os mounts rs s p flat = ServedRun-IsFlat (serve_all_refines os mounts rs s p) flat
