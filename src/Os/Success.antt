-- ===== src/Os/Success.antt =====
-- The calls that meet no fault, each with the world that it leaves.
use photon_container.Base.{
  ◌≡◌, refl, sym, subst, ap, ◌∙◌, suc, String, Bool, true, false, Option, none, some, List, [], ◌∷◌,
  ◌++◌, arith, append_assoc, append-nil,
}
use mathlib.Core.Path.{fun_ext}
use photon_container.Base.Time.{Time}
use photon_container.Os.Calls.{
  temp_name, stat, open_file, create_temp, copy, write, close, rename, remove, mkdir, mkdir_all,
  mkdir_below, ensure_dir, chtimes, is_dir, nearest_file, blocked,
}
use photon_container.Os.Files.{
  FilePath, Files, Bytes, Reader, Node, dir, file, parent, parent-append, put_node, move_tree,
  strip, strip_self_append, strip_sound,
}
use photon_container.Os.Laws.{strip_self}
use photon_container.World.{World, tick, ok, err, not_exist, ◌>>=◌}

pub put_node-here : (fs : Files) (p : FilePath) (o : Option Node) → put_node fs p o p ≡ o
put_node-here fs p o = rw (strip_self p, put_node) refl

pub put_node-away :
    (fs : Files) (p q : FilePath) (o : Option Node) → strip p q ≡ none → put_node fs p o q ≡ fs q
put_node-away fs p q o h = rw (h, put_node) refl

pub put_node-below :
    (fs : Files) (p : FilePath) (s : String) (x : FilePath) (o : Option Node)
    → put_node fs p o (p ++ (s ∷ x)) ≡ fs (p ++ (s ∷ x))
put_node-below fs p s x o = rw (strip_self_append p (s ∷ x), put_node) refl

-- Putting what is there already changes nothing.
pub put_node-same : (fs : Files) (p : FilePath) (o : Option Node) → fs p ≡ o → fs ≡ put_node fs p o
put_node-same fs p o h = fun_ext λ q. same_at q (strip p q) refl
  where
    same_at : (q : FilePath) (r : Option FilePath) → strip p q ≡ r → fs q ≡ put_node fs p o q
    same_at q none e = rw (e, put_node) refl
    same_at q (some []) e = rw (e, put_node) (ap fs (strip_sound p q [] e ∙ append-nil p) ∙ h)
    same_at q (some (s ∷ x)) e = rw (e, put_node) refl

abbrev pub created : FilePath → World → World
created tmp w = record (tick w) {
  files = put_node w.files tmp (some (file [] (w.env.clock (suc w.now))));
}

pub create_temp-first :
    (d : FilePath) (r : String) (rs : List String) (w : World)
    → w.env.fault w.now ≡ false
    → is_dir (w.files d) ≡ true
    → w.env.rand (suc w.now) ≡ r ∷ rs
    → w.files (d ++ temp_name r ∷ []) ≡ none
    → create_temp d w ≡ (ok (d ++ temp_name r ∷ []), created (d ++ temp_name r ∷ []) w)
unfolding create_temp
create_temp-first d r rs w calm inside drawn unused =
    rw calm (rw inside (rw drawn (rw unused refl)))

abbrev pub whole : Bytes → Reader
whole b = record { content = b; broken = false }

abbrev pub filled : FilePath → Bytes → World → World
filled tmp b w = record (tick w) {
  files = put_node w.files tmp (some (file b (w.env.clock (suc w.now))));
}

pub copy-whole :
    (tmp : FilePath) (b : Bytes) (w : World)
    → w.env.fault w.now ≡ false
    → copy tmp (whole b) w ≡ (ok tt, filled tmp b w)
unfolding copy write ◌>>=◌
copy-whole tmp b w calm = rw calm refl

pub close-calm : (w : World) → w.env.fault w.now ≡ false → close w ≡ (ok tt, tick w)
unfolding close
close-calm w calm = rw calm refl

-- The node at `p` is put or replaced.
abbrev pub putting : FilePath → Node → World → World
putting p n w = record (tick w) { files = put_node w.files p (some n) }

pub open_file-found :
    (p : FilePath) (b : Bytes) (t : Time) (w : World)
    → w.env.fault w.now ≡ false
    → w.files p ≡ some (file b t)
    → open_file p w ≡ (ok (whole b), tick w)
unfolding open_file
open_file-found p b t w calm there = rw calm (rw there refl)

nearest_file-dir : (above : Bool) (o : Option Node) → is_dir o ≡ true → nearest_file above o ≡ false
nearest_file-dir above none h = ground (arith, h)
nearest_file-dir above (some dir) h = refl
nearest_file-dir above (some (file _ _)) h = ground (arith, h)

blocked-below :
    (above : Bool) (fs : Files) (s : String) (p : FilePath)
    → is_dir (fs (parent (s ∷ p))) ≡ true
    → blocked above fs (s ∷ p) ≡ false
blocked-below above fs s [] h = nearest_file-dir above (fs []) h
blocked-below above fs s (t ∷ p) h =
    blocked-below (nearest_file above (fs [])) (λ q. fs (s ∷ q)) t p h

-- No file is on the way to a path in a directory.
blocked-inside :
    (p : FilePath) (fs : Files) → is_dir (fs (parent p)) ≡ true → blocked false fs p ≡ false
blocked-inside [] fs h = refl
blocked-inside (s ∷ p) fs h = blocked-below false fs s p h

module _ (p : FilePath) (w : World) (calm : w.env.fault w.now ≡ false) where
  pub stat-found : (n : Node) → w.files p ≡ some n → stat p w ≡ (ok n, tick w)
  unfolding stat
  stat-found n there = rw calm (rw there refl)

  pub stat-missing :
      w.files p ≡ none → is_dir (w.files (parent p)) ≡ true → stat p w ≡ (err not_exist, tick w)
  unfolding stat
  stat-missing missing inside = rw calm (rw missing (rw (blocked-inside p w.files inside) refl))

  pub remove-missing : w.files p ≡ none → remove p w ≡ (err not_exist, tick w)
  unfolding remove
  remove-missing missing = rw calm (rw missing refl)

  pub mkdir-missing :
      w.files p ≡ none → is_dir (w.files (parent p)) ≡ true → mkdir p w ≡ (ok tt, putting p dir w)
  unfolding mkdir
  mkdir-missing missing inside = rw calm (rw missing (rw inside refl))

  pub chtimes-dir : (t : Time) → w.files p ≡ some dir → chtimes p t w ≡ (ok tt, tick w)
  unfolding chtimes
  chtimes-dir t there = rw calm (rw there refl)

  pub chtimes-file :
      (b : Bytes) (s t : Time)
      → w.files p ≡ some (file b s)
      → chtimes p t w ≡ (ok tt, putting p (file b t) w)
  unfolding chtimes
  chtimes-file b s t there = rw calm (rw there refl)

abbrev pub moved : FilePath → FilePath → World → World
moved src dst w = record (tick w) { files = move_tree w.files src dst }

pub rename-file :
    (src dst : FilePath) (b : Bytes) (t : Time) (w : World)
    → w.env.fault w.now ≡ false
    → w.files src ≡ some (file b t)
    → is_dir (w.files dst) ≡ false
    → is_dir (w.files (parent dst)) ≡ true
    → rename src dst w ≡ (ok tt, moved src dst w)
unfolding rename
rename-file src dst b t w calm there free inside = rw calm (rw there (rw free (rw inside refl)))

ensured :
    (p : FilePath) (o : Option Node) (w : World) → is_dir o ≡ true → ensure_dir p o w ≡ (ok tt, w)
ensured p (some dir) w h = refl
ensured p none w h = ground (arith, h)
ensured p (some (file b t)) w h = ground (arith, h)

module _ (n : String) (w : World) (calm : w.env.fault w.now ≡ false) where
  mkdir_below-last :
      (p rest : FilePath)
      → ((q r : FilePath) → rest ≡ q ++ r → is_dir (w.files (p ++ q)) ≡ true)
      → w.files (p ++ (rest ++ n ∷ [])) ≡ none
      → mkdir_below p (rest ++ n ∷ []) w ≡ (ok tt, putting (p ++ (rest ++ n ∷ [])) dir w)
  unfolding ◌>>=◌
  mkdir_below-last p [] inside missing = rw missing (
      rw
        (mkdir-missing (p ++ n ∷ []) w calm missing (
          ap (λ q. is_dir (w.files q)) (parent-append p n ∙ sym (append-nil p))
          ∙ inside [] [] refl))
        refl)
  mkdir_below-last p (s ∷ rest) inside missing =
      rw (ensured (p ++ s ∷ []) (w.files (p ++ s ∷ [])) w (inside (s ∷ []) rest refl)) (
        subst (λ q. mkdir_below (p ++ s ∷ []) (rest ++ n ∷ []) w ≡ (ok tt, putting q dir w))
          (append_assoc p (s ∷ []) (rest ++ n ∷ []))
          (mkdir_below-last (p ++ s ∷ []) rest
            (λ q r e.
              ap (λ x. is_dir (w.files x)) (append_assoc p (s ∷ []) q)
              ∙ inside (s ∷ q) r (ap (λ x. s ∷ x) e))
            (ap w.files (append_assoc p (s ∷ []) (rest ++ n ∷ [])) ∙ missing)))

  -- Making the last directory of a path whose others are there.
  pub mkdir_all-last :
      (d : FilePath)
      → ((p q : FilePath) → d ≡ p ++ q → is_dir (w.files p) ≡ true)
      → w.files (d ++ n ∷ []) ≡ none
      → mkdir_all (d ++ n ∷ []) w ≡ (ok tt, putting (d ++ n ∷ []) dir w)
  unfolding mkdir_all
  mkdir_all-last d inside missing = mkdir_below-last [] d inside missing
