-- ===== src/Unarchiver/Refinement.antt =====
-- internal/unarchiver/unarchiver.go: the whole of `Unarchive`, against the tree that the archive
-- describes.
use photon_container.Base.{
  ◌≡◌, refl, ap, sym, subst, ◌∙◌, String, true, false, none, List, [], ◌∷◌, ◌++◌, arith, append-nil,
}
use mathlib.Core.Path.{fun_ext}
use photon_container.Os.Calls.{is_dir}
use photon_container.Os.Files.{FilePath, Files, Reader, dir, strip, parent, parent-append}
use photon_container.Os.Laws.{SameServices, SameServices-trans, local}
use photon_container.Os.Success.{
  putting, put_node-here, put_node-away, put_node-below, stat-missing, mkdir_all-last,
}
use photon_container.Unarchiver.Contents.{unpack, all_fit, empty_root, no_temp}
use photon_container.Unarchiver.Extract.{Codec, Tar, decoded, unarchive_into, prepare, unarchive}
use photon_container.Unarchiver.Local.{unpack-Agrees, unpack-away}
use photon_container.Unarchiver.Options.{UnarchiveOption}
use photon_container.Unarchiver.Success.{IsOpen, extract_all-Places}
use photon_container.Unarchiver.Writes.{IsCalm}
use photon_container.World.{World, ok, tick, branch, wrapped}
use photon_container.World.Returns.{after}
use photon_container.World.Rules.{Ensures, Ensures-weaken, Ensures-recover}

-- The headers can be read to the end, and each fits in the tree of those before it.
pub record IsUnpackable (tar : Tar) : Type 0 where
  pub unbroken : tar.broken ≡ false
  pub fit : all_fit [] empty_root tar.entries ≡ true

module _ (codec : Codec) (options : List UnarchiveOption) (archive : Reader) (d : FilePath)
    (n : String) where
  abbrev dest : FilePath
  dest = d ++ n ∷ []

  abbrev tar : Tar
  tar = decoded codec options archive

  -- The tree is what the archive describes, and nothing has changed beside it.
  abbrev pub IsUnpacked : World → World → Type 0
  IsUnpacked v u =
      SameServices v u
      × (local dest u.files ≡ unpack [] empty_root tar.entries)
      × ((z : FilePath) → strip dest z ≡ none → u.files z ≡ v.files z)

  module _ (w : World) (calm : IsCalm w.env)
      (inside : (p q : FilePath) → d ≡ p ++ q → is_dir (w.files p) ≡ true)
      (missing : (q : FilePath) → w.files (d ++ n ∷ [] ++ q) ≡ none) where
    made : World
    made = putting dest dir (tick w)

    missing_here : w.files dest ≡ none
    missing_here = subst (λ p. w.files p ≡ none) (append-nil dest) (missing [])

    inside_here : is_dir (w.files (parent dest)) ≡ true
    inside_here =
        subst (λ p. is_dir (w.files p) ≡ true) (sym (parent-append d n))
          (inside d [] (sym (append-nil d)))

    prepares : prepare codec dest w ≡ (ok tt, made)
    unfolding prepare branch wrapped made
    prepares =
        rw (stat-missing dest w (calm.no_fault _) missing_here inside_here)
          (rw (mkdir_all-last n (tick w) (calm.no_fault _) d inside missing_here) refl)

    made_empty : local dest made.files ≡ empty_root
    unfolding made
    made_empty = fun_ext made_at_path
      where
        made_at_path : (q : FilePath) → local dest made.files q ≡ empty_root q
        made_at_path [] = ap made.files (append-nil dest) ∙ put_node-here w.files dest _
        made_at_path (s ∷ q) = put_node-below w.files dest s q _ ∙ missing (s ∷ q)

    clean_empty : (q : FilePath) → no_temp q ≡ false → empty_root q ≡ none
    clean_empty [] h = ground (arith, h)
    clean_empty (s ∷ q) h = refl

    made-IsOpen : IsOpen dest made
    unfolding made
    made-IsOpen = record {
      calm = calm;
      clean = λ q h. ap (λ (f : Files). f q) made_empty ∙ clean_empty q h;
      root = ap is_dir (put_node-here w.files dest _);
    }

    module _ (good : IsUnpackable tar) where
      into :
          Ensures (λ _. IsUnpacked made) (λ _ _. ⊥) (unarchive_into codec archive dest options made)
      unfolding unarchive_into
      into =
          let fit =
            unpack-Agrees dest made.files tar.entries
              (ap (λ fs. all_fit [] fs tar.entries) made_empty ∙ good.fit) in
          rw good.unbroken (
            Ensures-weaken (extract_all-Places dest made tar.entries made-IsOpen fit.0)
              (λ _ u h. (
                h.0,
                ap (local dest) h.1 ∙ fit.1 ∙ ap (λ fs. unpack [] fs tar.entries) made_empty,
                λ z away.
                    ap (λ (f : Files). f z) h.1
                    ∙ unpack-away dest z away made.files tar.entries fit.0,
              ))
              (λ _ _ h. h))

      pub unarchive-IsUnpacked :
          Ensures (λ _. IsUnpacked w) (λ _ _. ⊥) (unarchive codec archive dest options w)
      unfolding unarchive made
      unarchive-IsUnpacked = after _ tt made _ w prepares (
          Ensures-recover _ _ made into
            (λ _ u h. (
              SameServices-trans w made u (record { photon = refl; migrator = refl; env = refl })
                  h.0,
              h.1,
              λ z away. h.2 z away ∙ put_node-away w.files dest z _ away,
            ))
            (λ _ _ h. absurd h))

      -- Unarchiving into a directory that is not there makes the tree that the archive describes: if
      -- no call fails, and a name for a temporary file can be drawn; if the destination's parents
      -- are there, and nothing is at the destination or below it; if the headers can be read to the
      -- end, and each, put into the tree of those before it, has a name with neither ".." nor a
      -- temporary file's name in it, the directory that it needs, and a body that does not break
      -- off; then `Unarchive` reports no error, the services are as they were, the directories and
      -- files at the destination and below it are those of the headers, a later one over an
      -- earlier, the files with their contents and modification times, and no temporary file is
      -- left; and what is at any path that is not at or below the destination is the same. The
      -- modification times of directories are not claimed.
      pub unarchive_lem :
          (z : FilePath)
          → strip dest z ≡ none
          → Ensures
              (λ _ v.
                SameServices w v
                × (local dest v.files ≡ unpack [] empty_root tar.entries)
                × (v.files z ≡ w.files z))
              (λ _ _. ⊥)
              (unarchive codec archive dest options w)
      unarchive_lem z away =
          Ensures-weaken unarchive-IsUnpacked (λ _ v h. (h.0, h.1, h.2 z away)) (λ _ _ h. h)
