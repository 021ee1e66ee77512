-- ===== src/Unarchiver/Local.antt =====
-- The tree that an archive describes does not depend on where it is unpacked.
use photon_container.Base.{
  ◌≡◌, refl, sym, ap, subst, ◌∙◌, String, Bool, true, false, Option, none, some, List, [], ◌∷◌,
  ◌++◌, arith, append_assoc, append-nil, not, ◌||◌, str_eq, if◌then◌else◌,
}
use mathlib.Core.Path.{fun_ext}
use photon_container.Os.Files.{
  FilePath, Files, Node, parent, parent-append_right, join, push, put_node, strip,
  strip-append_left, strip-append_none,
}
use photon_container.Os.Laws.{local}
use photon_container.Os.Success.{put_node-away}
use photon_container.Unarchiver.Contents.{
  is_fair, put_file, place_as, place, unpack, fits_as, fits, all_fit,
}
use photon_container.Unarchiver.Extract.{TypeFlag, type_dir, type_reg, type_other, Entry}

module _ (dest : FilePath) where
  join_pushed :
      (t : FilePath) (s : String) (here up : Bool)
      → not up ≡ true
      → (if here then dest ++ t else if up then parent (dest ++ t) else dest ++ t ++ s ∷ [])
        ≡ dest ++ (if here then t else if up then parent t else t ++ s ∷ [])
  join_pushed t s true up h = refl
  join_pushed t s false true h = ground (arith, h)
  join_pushed t s false false h = append_assoc dest t (s ∷ [])

  join-append :
      (t : FilePath) (name : List String)
      → is_fair name ≡ true
      → join (dest ++ t) name ≡ dest ++ join t name
  join-append t [] fair = refl
  join-append t (s ∷ rest) fair =
      ap (λ p. join p rest)
        (join_pushed t s (str_eq s "" || str_eq s ".") (str_eq s "..") (ground (arith, fair)))
      ∙ join-append (push t s) rest (ground (arith, fair))

  target-append : (e : Entry) → is_fair e.name ≡ true → join dest e.name ≡ dest ++ join [] e.name
  target-append e fair =
      ap (λ p. join p e.name) (sym (append-nil dest)) ∙ join-append [] e.name fair

  module _ (fs : Files) where
    local-put_node :
        (a : FilePath) (o : Option Node)
        → local dest (put_node fs (dest ++ a) o) ≡ put_node (local dest fs) a o
    local-put_node a o = fun_ext λ q. rw (strip-append_left dest a q, put_node) refl

    local-put_file :
        (a : FilePath) (n : Node)
        → local dest (put_file fs (dest ++ a) n) ≡ put_file (local dest fs) a n
    local-put_file a n = fun_ext λ q. rw (strip-append_left dest a q, put_file) refl

    local-place_as :
        (f : TypeFlag) (a : FilePath) (e : Entry)
        → local dest (place_as f fs (dest ++ a) e) ≡ place_as f (local dest fs) a e
    local-place_as type_dir a e = local-put_node a _
    local-place_as type_reg a e = local-put_file a _
    local-place_as type_other a e = refl

    fits_at :
        (f : TypeFlag) (a : FilePath) (e : Entry)
        → fits_as f (local dest fs) a e ≡ true
        → fits_as f fs (dest ++ a) e ≡ true
    fits_at type_dir [] e h = ground (arith, h)
    fits_at type_dir (s ∷ a) e h = rw (parent-append_right dest s a) h
    fits_at type_reg [] e h = ground (arith, h)
    fits_at type_reg (s ∷ a) e h = rw (parent-append_right dest s a) h
    fits_at type_other a e h = refl

    local-place :
        (e : Entry)
        → is_fair e.name ≡ true
        → local dest (place dest fs e) ≡ place [] (local dest fs) e
    local-place e fair =
        ap (λ t. local dest (place_as e.typeflag fs t e)) (target-append e fair)
        ∙ local-place_as e.typeflag (join [] e.name) e

    fits-local : (e : Entry) → fits [] (local dest fs) e ≡ true → fits dest fs e ≡ true
    fits-local e h =
        let at =
          subst (λ t. fits_as e.typeflag fs t e ≡ true) (sym (target-append e (ground (arith, h))))
            (fits_at e.typeflag (join [] e.name) e (ground (arith, h))) in
        ground (arith, h, at)

  abbrev Agrees : Files → List (Option Entry) → Type 0
  Agrees fs entries =
      (all_fit dest fs entries ≡ true)
      × (local dest (unpack dest fs entries) ≡ unpack [] (local dest fs) entries)

  pub unpack-Agrees :
      (fs : Files) (entries : List (Option Entry))
      → all_fit [] (local dest fs) entries ≡ true
      → Agrees fs entries
  unpack-Agrees fs [] fit = (refl, refl)
  unpack-Agrees fs (none ∷ rest) fit = unpack-Agrees fs rest fit
  unpack-Agrees fs (some e ∷ rest) fit =
      let same = local-place fs e (ground (arith, fit)) in
      let h =
        unpack-Agrees (place dest fs e) rest
          (ap (λ t. all_fit [] t rest) same ∙ ground (arith, fit)) in
      let fit_here = fits-local fs e (ground (arith, fit)) in
      (ground (arith, fit_here, h.0), h.1 ∙ ap (λ t. unpack [] t rest) same)

  module _ (z : FilePath) (away : strip dest z ≡ none) where
    place_as-away :
        (fs : Files) (f : TypeFlag) (a : FilePath) (e : Entry)
        → place_as f fs (dest ++ a) e z ≡ fs z
    place_as-away fs type_dir a e =
        put_node-away fs (dest ++ a) z _ (strip-append_none dest a z away)
    place_as-away fs type_reg a e = rw (strip-append_none dest a z away, put_file) refl
    place_as-away fs type_other a e = refl

    place-away : (fs : Files) (e : Entry) → is_fair e.name ≡ true → place dest fs e z ≡ fs z
    place-away fs e fair =
        ap (λ t. place_as e.typeflag fs t e z) (target-append e fair)
        ∙ place_as-away fs e.typeflag (join [] e.name) e

    -- Unpacking changes nothing beside the destination.
    pub unpack-away :
        (fs : Files) (entries : List (Option Entry))
        → all_fit dest fs entries ≡ true
        → unpack dest fs entries z ≡ fs z
    unpack-away fs [] fit = refl
    unpack-away fs (none ∷ rest) fit = unpack-away fs rest fit
    unpack-away fs (some e ∷ rest) fit =
        unpack-away (place dest fs e) rest (ground (arith, fit))
        ∙ place-away fs e (ground (arith, fit))
