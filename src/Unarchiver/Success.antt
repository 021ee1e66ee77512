-- ===== src/Unarchiver/Success.antt =====
-- internal/unarchiver/unarchiver.go: the loop over an archive that meets no fault makes the tree
-- that the archive describes.
use photon_container.Base.{
  ◌≡◌, ◌≢◌, refl, sym, ap, subst, ◌∙◌, String, true, false, Option, none, some, List, [], ◌∷◌, suc,
  ◌++◌, arith, append_assoc, append-nil, ◌&&◌, ◌||◌,
}
use mathlib.Core.Path.{ap₂}
use photon_container.Os.Calls.{temp_name, is_dir, is_missing}
use photon_container.Os.Files.{
  FilePath, Files, Node, dir, file, parent, parent-append_right, join, strip, strip-append_left,
  strip-longer,
}
use photon_container.Os.Laws.{SameServices, SameServices-refl, SameServices-trans}
use photon_container.Os.Success.{
  putting, put_node-here, put_node-same, stat-found, stat-missing, mkdir-missing, chtimes-dir,
}
use photon_container.Unarchiver.Contents.{
  put_file, place_as, place, unpack, fits_as, fits, all_fit, no_temp,
}
use photon_container.Unarchiver.Extract.{
  TypeFlag, type_dir, type_reg, type_other, Entry, extract_as, extract, extract_all, make_dir,
  touch,
}
use photon_container.Unarchiver.Fair.{
  IsClean, IsFairBelow, no_temp-temp_name, no_temp_apart, place-IsClean, target-IsFairBelow,
}
use photon_container.Unarchiver.Writes.{IsCalm, tmp, put, extract_reg-calm}
use photon_container.World.{World, M, ok, tick, recover, wrapped, ◌>>=◌}
use photon_container.World.Rules.{Ensures, Ensures-pure, Ensures-bind, Ensures-weaken}

-- The files are these, and the services as they were.
abbrev pub Placed : Files → World → World → Type 0
Placed fs w v = SameServices w v × (v.files ≡ fs)

abbrev Places : Files → M (Unit {0}) → World → Type 0
Places fs m w = Ensures (λ _. Placed fs w) (λ _ _. ⊥) (m w)

-- The method returns, into a world of which the files are known.
leads :
    (m : M (Unit {0})) (w v : World) (fs : Files)
    → m w ≡ (ok tt, v)
    → SameServices w v
    → v.files ≡ fs
    → Places fs m w
leads m w v fs h same e =
    subst (λ r. Ensures (λ _. Placed fs w) (λ _ _. ⊥) r) (sym h) (Ensures-pure (same, e))

module _ (w : World) (calm : IsCalm w.env) (t : FilePath) (e : Entry) where
  dir_there :
      w.files t ≡ some dir → Places (place_as type_dir w.files t e) (extract_as type_dir t e) w
  unfolding extract_as touch recover wrapped ◌>>=◌
  dir_there there =
      leads (extract_as type_dir t e) w (tick (tick w)) _
        (rw (stat-found t w (calm.no_fault _) _ there)
          (rw (chtimes-dir t (tick w) (calm.no_fault _) e.mod_time there) refl))
        (record { photon = refl; migrator = refl; env = refl })
        (put_node-same w.files t (some dir) there)

  dir_missing :
      w.files t ≡ none
      → is_dir (w.files (parent t)) ≡ true
      → Places (place_as type_dir w.files t e) (extract_as type_dir t e) w
  unfolding extract_as touch make_dir recover wrapped ◌>>=◌
  dir_missing missing inside =
      let made = putting t dir (tick w) in
      leads (extract_as type_dir t e) w (tick made) _
        (rw (stat-missing t w (calm.no_fault _) missing inside) (
          rw (mkdir-missing t (tick w) (calm.no_fault _) missing inside) (
            rw (chtimes-dir t made (calm.no_fault _) e.mod_time (put_node-here w.files t _)) refl)))
        (record { photon = refl; migrator = refl; env = refl }) refl

  dir_placed :
      (o : Option Node)
      → w.files t ≡ o
      → (is_dir o || (is_missing o && is_dir (w.files (parent t)))) ≡ true
      → Places (place_as type_dir w.files t e) (extract_as type_dir t e) w
  dir_placed none h fit = dir_missing h fit
  dir_placed (some dir) h fit = dir_there h
  dir_placed (some (file b s)) h fit = ground (arith, fit)

  module _ (dest : FilePath) (clean : IsClean dest w.files) (rest : FilePath)
      (at : t ≡ dest ++ rest) (fair : no_temp rest ≡ true) (s : String) (q : FilePath)
      (proper : rest ≡ s ∷ q) where
    abbrev below : FilePath → FilePath
    below x = parent (s ∷ q) ++ (temp_name (calm.first_drawn (suc w.now)) ∷ x)

    temp_below : (x : FilePath) → tmp w calm t ++ x ≡ dest ++ below x
    temp_below x =
        let n = temp_name (calm.first_drawn (suc w.now)) in
        ap (λ p. parent p ++ n ∷ [] ++ x) (at ∙ ap (λ r. dest ++ r) proper)
        ∙ ap (λ p. p ++ n ∷ [] ++ x) (parent-append_right dest s q)
        ∙ append_assoc (dest ++ parent (s ∷ q)) (n ∷ []) x
        ∙ append_assoc dest (parent (s ∷ q)) (n ∷ x)

    apart : strip t (tmp w calm t) ≢ some []
    apart h = no_temp_apart rest (below []) fair (no_temp-temp_name (parent (s ∷ q)) _ []) (
        sym (
          ap₂ strip at (sym (append-nil (tmp w calm t)) ∙ temp_below [])
          ∙ strip-append_left dest rest (below []))
        ∙ h)

    unused : (x : FilePath) → w.files (tmp w calm t ++ x) ≡ none
    unused x = ap w.files (temp_below x) ∙ clean (below x) (no_temp-temp_name (parent (s ∷ q)) _ x)

    reg_placed :
        is_dir (w.files t) ≡ false
        → is_dir (w.files (parent t)) ≡ true
        → e.body.broken ≡ false
        → Places (place_as type_reg w.files t e) (extract_as type_reg t e) w
    reg_placed free inside unbroken =
        leads (extract_as type_reg t e) w _ _
          (extract_reg-calm w calm t e.body.content unused apart free inside e
            (ap (λ b. record { content = e.body.content; broken = b }) unbroken))
          (record { photon = refl; migrator = refl; env = refl })
          (put w calm t e.body.content unused apart free inside e.mod_time)

module _ (dest : FilePath) (fs : Files) (e : Entry) (root : is_dir (fs dest) ≡ true) where
  reg_root :
      (t : FilePath)
      → IsFairBelow dest t
      → is_dir (fs t) ≡ false
      → is_dir (place_as type_reg fs t e dest) ≡ true
  reg_root t ([], at, fair) free =
      ground (arith, free, root, ap (λ p. is_dir (fs p)) (at ∙ append-nil dest))
  reg_root t (s ∷ q, at, fair) free =
      rw (ap (λ p. strip p dest) at ∙ strip-longer dest s q, put_file) root

  place_root :
      (f : TypeFlag) (t : FilePath)
      → IsFairBelow dest t
      → fits_as f fs t e ≡ true
      → is_dir (place_as f fs t e dest) ≡ true
  place_root type_dir t below fit = ground (arith, root)
  place_root type_reg t below fit = reg_root t below (ground (arith, fit))
  place_root type_other t below fit = root

module _ (dest : FilePath) where
  -- No call fails, the destination is a directory, and no temporary file is in the way.
  pub record IsOpen (w : World) : Type 0 where
    pub calm : IsCalm w.env
    pub clean : IsClean dest w.files
    pub root : is_dir (w.files dest) ≡ true

  placed_as :
      (w : World)
      → IsOpen w
      → (f : TypeFlag) (t : FilePath) (e : Entry) → IsFairBelow dest t
      → fits_as f w.files t e ≡ true
      → Places (place_as f w.files t e) (extract_as f t e) w
  unfolding extract_as
  placed_as w ready type_dir t e below fit = dir_placed w ready.calm t e (w.files t) refl fit
  placed_as w ready type_other t e below fit = Ensures-pure (SameServices-refl w, refl)
  placed_as w ready type_reg t e ([], at, fair) fit =
      ground (arith, fit, ready.root, ap (λ p. is_dir (w.files p)) (at ∙ append-nil dest))
  placed_as w ready type_reg t e (s ∷ q, at, fair) fit =
      reg_placed w ready.calm t e dest ready.clean (s ∷ q) at fair s q refl (ground (arith, fit))
        (ground (arith, fit)) (ground (arith, fit))

  still-IsOpen :
      (w v : World) (e : Entry)
      → IsOpen w
      → fits dest w.files e ≡ true
      → Placed (place dest w.files e) w v
      → IsOpen v
  still-IsOpen w v e ready fit (same, files) = record {
    calm = subst IsCalm (sym same.env) ready.calm;
    clean =
        subst (IsClean dest) (sym files)
          (place-IsClean dest w.files e ready.clean (ground (arith, fit)));
    root =
        subst (λ fs. is_dir (fs dest) ≡ true) (sym files)
          (place_root dest w.files e ready.root e.typeflag (join dest e.name)
            (target-IsFairBelow dest e (ground (arith, fit))) (ground (arith, fit)));
  }

  pub extract_all-Places :
      (w : World) (entries : List (Option Entry))
      → IsOpen w
      → all_fit dest w.files entries ≡ true
      → Places (unpack dest w.files entries) (extract_all dest false entries) w
  unfolding extract_all extract
  extract_all-Places w [] ready fit = Ensures-pure (SameServices-refl w, refl)
  extract_all-Places w (none ∷ rest) ready fit = extract_all-Places w rest ready fit
  extract_all-Places w (some e ∷ rest) ready fit =
      Ensures-bind _ _ w
        (placed_as w ready e.typeflag (join dest e.name) e
          (target-IsFairBelow dest e (ground (arith, fit))) (ground (arith, fit)))
        (λ _ v h.
          Ensures-weaken
            (extract_all-Places v rest (still-IsOpen w v e ready (ground (arith, fit)) h)
              (ap (λ fs. all_fit dest fs rest) h.1 ∙ ground (arith, fit)))
            (λ _ u k. (SameServices-trans w v u h.0 k.0, k.1 ∙ ap (λ fs. unpack dest fs rest) h.1))
            (λ _ _ k. k))
