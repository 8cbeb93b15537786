-- ===== src/Mount/Device.antt =====
-- The device paths of a disk, and the one that `VerifyDevicePath` answers.
use Prim.Native.String.{◌∷◌ as ◌▹◌}
use text.Mathlib.TextLemmas.{cons-append, append_assoc}
use compute_persistent_disk.Prelude.{
  String, ◌<>◌, Char, code, ◌≡◌, ◌≢◌, ◌⊎◌, inl, inr, refl, sym, subst, ap, ◌∙◌, List, [], ◌∷◌,
  arith, true, false,
}
use compute_persistent_disk.Go.Path.{clean_onto}
use compute_persistent_disk.Go.Path.Laws.{ne_dots}
use compute_persistent_disk.Go.Strings.{split, join}
use compute_persistent_disk.Go.Strings.Laws.{Lacks, Lacks-append, split-snoc}
use compute_persistent_disk.Go.Error.{Answer, answer, Answer-cases}
use compute_persistent_disk.Mount.Commands.{path_join, get_disk_by_id_paths, disk_by_id_path}
use compute_persistent_disk.Mount.Gce.{Os, path_exists, first_existing, verify_device_path}

below : (dir rest t : String) → dir <> ("/" <> (rest <> t)) ≡ (dir <> ("/" <> rest)) <> t
below dir rest t =
    ap (λ u. dir <> u) (sym (append_assoc "/" rest t)) ∙ sym (append_assoc dir ("/" <> rest) t)

by_id :
    (t : String)
    → "/" <> ("host" <> ("/" <> ("dev" <> ("/" <> ("disk" <> ("/" <> ("by-id" <> ("/" <> t))))))))
      ≡ "/host/dev/disk/by-id/" <> t
by_id t =
    ap (λ u. "/" <> ("host" <> ("/" <> ("dev" <> ("/" <> ("disk" <> ("/" <> u)))))))
      (sym (append_assoc "by-id" "/" t))
    ∙ ap (λ u. "/" <> ("host" <> ("/" <> ("dev" <> ("/" <> u))))) (below "disk" "by-id/" t)
    ∙ ap (λ u. "/" <> ("host" <> ("/" <> u))) (below "dev" "disk/by-id/" t)
    ∙ ap (λ u. "/" <> u) (below "host" "dev/disk/by-id/" t)
    ∙ sym (append_assoc "/" "host/dev/disk/by-id/" t)

path_join-component :
    (c : Char) (name : String)
    → code c ≢ 0
    → code c ≢ b'.'
    → Lacks b'/' (c ▹ name)
    → path_join disk_by_id_path (c ▹ name) ≡ "/host/dev/disk/by-id/" <> (c ▹ name)
unfolding path_join join split
path_join-component c name z d h =
    ap (λ ps. "/" <> join "/" (clean_onto [] ps)) (split-snoc "/" disk_by_id_path (c ▹ name) h)
    ∙ rw
        (
          ne_dots c name "" (inl refl) z d,
          ne_dots c name "." (inr refl) z d,
          ne_dots c name ".." (inr refl) z d,
        )
        (by_id (c ▹ name))

path_join-prefixed :
    (c : Char) (p name : String)
    → code c ≢ 0
    → code c ≢ b'.'
    → Lacks b'/' (c ▹ p)
    → Lacks b'/' name
    → path_join disk_by_id_path ((c ▹ p) <> name) ≡ "/host/dev/disk/by-id/" <> ((c ▹ p) <> name)
path_join-prefixed c p name z d (h, hs) k =
    rw cons-append (path_join-component c (p <> name) z d (h, Lacks-append b'/' p name hs k))

-- The paths at which the device of a disk can be, for a name without a slash.
pub get_disk_by_id_paths-google :
    (name : String)
    → Lacks b'/' name
    → get_disk_by_id_paths name ""
      ≡ ("/host/dev/disk/by-id/" <> ("google-" <> name))
        ∷ ("/host/dev/disk/by-id/" <> ("scsi-0Google_PersistentDisk_" <> name))
        ∷ []
unfolding get_disk_by_id_paths
get_disk_by_id_paths-google name h = rw (
  path_join-prefixed "g" "oogle-" name (omega arith) (omega arith) (ground arith) h,
  path_join-prefixed "s" "csi-0Google_PersistentDisk_" name (omega arith) (omega arith)
      (ground arith) h,
)

abbrev pub Among : String → List String → Type 0
Among p [] = ⊥
Among p (q ∷ qs) = (p ≡ q) ⊎ Among p qs

module _ (os : Os) where
  -- A path that is answered, other than the empty one, is one of those asked for, and its `os.Stat`
  -- was answered in the state after which the answer is given.
  abbrev pub Exists : String → os.State → Type 0
  Exists path after = (before : os.State) × ((path_exists os path before) ≡ (answer true, after))

  first_existing-answer :
      (paths : List String) (s : os.State) (p : String)
      → (first_existing os paths s).0 ≡ answer p
      → p ≢ ""
      → Among p paths × Exists p (first_existing os paths s).1
  unfolding first_existing
  first_existing-answer [] s p h n = absurd (ground arith)
  first_existing-answer (q ∷ qs) s p h n = elim (Answer-cases (path_exists os q s).0) [
    | inr (failure, e) ↦ absurd (ground arith)
    | inl (true, e) ↦
        let t = (path_exists os q s).1 in
        let whole : first_existing os (q ∷ qs) s ≡ (answer q, t) = ground arith in
        let same : q ≡ p = ground arith in
        (
          inl (sym same),
          subst (λ x. Exists x (first_existing os (q ∷ qs) s).1) same
              (s, λ k. (e k, ap (λ (r : Answer String × os.State). r.1) (sym whole) k)),
        )
    | inl (false, e) ↦
        let t = (path_exists os q s).1 in
        let whole : first_existing os (q ∷ qs) s ≡ first_existing os qs t = ground arith in
        let (among, exists) = first_existing-answer qs t p (ground arith) n in
        (inr among, subst (λ (r : Answer String × os.State). Exists p r.1) (sym whole) exists)
  ]

  pub verify_device_path-answer :
      (paths : List String) (s : os.State) (p : String)
      → (verify_device_path os paths s).0 ≡ answer p
      → p ≢ ""
      → Among p paths × Exists p (verify_device_path os paths s).1
  unfolding verify_device_path
  verify_device_path-answer paths s p h n = first_existing-answer paths _ p h n
