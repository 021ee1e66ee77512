-- ===== src/Os/Laws.antt =====
-- What the calls on whole trees leave behind: the rest of the world, and the files path by path.
use photon_container.Base.{
  ◌≡◌, ◌≢◌, refl, ap, ◌∙◌, ◌++◌, Option, none, some, append_assoc, append-nil, arith, [], ◌∷◌,
  false, String, true, ◌⊎◌, inl, inr, subst,
}
use mathlib.Core.Path.{fun_ext, ap₂}
use photon_container.Os.Files.{
  FilePath, Files, Node, Reader, dir, file, strip, strip_self_append, parent, parent-append,
  move_tree, cut_tree, strip-append_left,
}
use photon_container.Os.Calls.{rename, remove_all, open_file, opened, is_dir}
use photon_container.Base.Time.{Time}
use photon_container.World.{World, tick}
use photon_container.World.Rules.{
  Ensures, Leaves, Ensures-weaken, Ensures-if, Ensures-raise, Ensures-pure,
}

-- The second world differs from the first in the files and the number of the next call only.
pub record SameServices (v w : World) : Type 0 where
  pub photon : w.photon ≡ v.photon
  pub migrator : w.migrator ≡ v.migrator
  pub env : w.env ≡ v.env

pub SameServices-refl : (w : World) → SameServices w w
SameServices-refl w = record { photon = refl; migrator = refl; env = refl }

pub SameServices-trans : (u v w : World) → SameServices u v → SameServices v w → SameServices u w
SameServices-trans u v w h k = record {
  photon = k.photon ∙ h.photon;
  migrator = k.migrator ∙ h.migrator;
  env = k.env ∙ h.env;
}

pub rename_moves :
    (src dst : FilePath) (w : World)
    → Ensures
        (λ _ v. SameServices w v × (v.files ≡ move_tree w.files src dst) × (w.files src ≢ none))
        (λ _ v. SameServices w v × (v.files ≡ w.files))
        (rename src dst w)
unfolding rename
rename_moves src dst w = ground arith

pub strip_self : (p : FilePath) → strip p p ≡ some []
strip_self p = subst (λ t. strip p t ≡ some []) (append-nil p) (strip_self_append p [])

pub moved_to : (fs : Files) (src dst : FilePath) → move_tree fs src dst dst ≡ fs src
moved_to fs src dst =
    ap
      (λ s. elim s [
        | some r ↦ fs (src ++ r)
        | none ↦ elim (strip src dst) [ some _ ↦ none | none ↦ fs dst ]
      ])
      (strip_self dst)
    ∙ ap fs (append-nil src)

-- What stood at the source stands at the target.
pub rename_to :
    (src dst : FilePath) (w : World)
    → Ensures
        (λ _ v. SameServices w v × (v.files dst ≡ w.files src))
        (λ _ v. SameServices w v × (v.files dst ≡ w.files dst))
        (rename src dst w)
rename_to src dst w =
    Ensures-weaken (rename_moves src dst w)
      (λ _ v h. (h.0, ap (λ (f : Files). f dst) h.1 ∙ moved_to w.files src dst))
      (λ _ v h. (h.0, ap (λ (f : Files). f dst) h.1))

module _ (p : FilePath) (w : World) where
  -- The reader delivers the content of the file, unless it breaks off.
  abbrev pub Delivers : Reader → World → Type 0
  Delivers r v =
      SameServices w v
      × (v.files ≡ w.files)
      × ((r.broken ≡ true) ⊎ ((t : Time) × (w.files p ≡ some (file r.content t))))

  abbrev Unopened : World → Type 0
  Unopened v = SameServices w v × (v.files ≡ w.files)

  ticked : SameServices w (tick w)
  ticked = record { photon = refl; migrator = refl; env = refl }

  opened-Delivers :
      (o : Option Node) → w.files p ≡ o → Ensures Delivers (λ _. Unopened) (opened o (tick w))
  opened-Delivers none e = Ensures-raise (ticked, refl)
  opened-Delivers (some dir) e = Ensures-pure (ticked, refl, inl refl)
  opened-Delivers (some (file b t)) e = Ensures-pure (ticked, refl, inr (t, e))

  pub open_file-Delivers : Ensures Delivers (λ _. Unopened) (open_file p w)
  unfolding open_file
  open_file-Delivers =
      Ensures-if (w.env.fault w.now)
        (λ _. Ensures-raise (record { photon = refl; migrator = refl; env = refl }, refl))
        (λ _. opened-Delivers (w.files p) refl)

pub remove_all_cuts :
    (p : FilePath) (w : World)
    → Ensures
        (λ _ v. SameServices w v × (v.files ≡ cut_tree w.files p))
        (λ _ v. SameServices w v × ((q : FilePath) → strip p q ≡ none → v.files q ≡ w.files q))
        (remove_all p w)
unfolding remove_all
remove_all_cuts p w = ground arith

pub open_file_keeps :
    (p : FilePath) (w : World)
    → Leaves (λ v. SameServices w v × (v.files ≡ w.files)) (open_file p w)
unfolding open_file
open_file_keeps p w = ground arith

-- The files below a root, by their paths from there.
abbrev pub local : FilePath → Files → Files
local root fs q = fs (root ++ q)

module _ (root : FilePath) where
  abbrev moved : Files → FilePath → FilePath → Option FilePath → Option FilePath → Option Node
  moved fs a q s t = elim s [
    | some r ↦ fs (root ++ a ++ r)
    | none ↦ elim t [ some _ ↦ none | none ↦ fs (root ++ q) ]
  ]

  abbrev local_moved : Files → FilePath → FilePath → Option FilePath → Option FilePath → Option Node
  local_moved fs a q s t = elim s [
    | some r ↦ fs (root ++ (a ++ r))
    | none ↦ elim t [ some _ ↦ none | none ↦ fs (root ++ q) ]
  ]

  moved_eq :
      (fs : Files) (a q : FilePath) (s t : Option FilePath)
      → moved fs a q s t ≡ local_moved fs a q s t
  moved_eq fs a q none t = refl
  moved_eq fs a q (some r) t = ap fs (append_assoc root a r)

  local-move_tree :
      (fs : Files) (a b : FilePath)
      → local root (move_tree fs (root ++ a) (root ++ b)) ≡ move_tree (local root fs) a b
  local-move_tree fs a b = fun_ext λ q.
      ap₂ (moved fs a q) (strip-append_left root b q) (strip-append_left root a q)
      ∙ moved_eq fs a q (strip b q) (strip a q)

  local-cut_tree :
      (fs : Files) (a : FilePath)
      → local root (cut_tree fs (root ++ a)) ≡ cut_tree (local root fs) a
  local-cut_tree fs a = fun_ext λ q. simp (strip-append_left, cut_tree)

  pub rename-local :
      (a b : FilePath) (w : World)
      → Ensures
          (λ _ v.
            SameServices w v
            × (local root v.files ≡ move_tree (local root w.files) a b)
            × (local root w.files a ≢ none))
          (λ _ v. SameServices w v × (local root v.files ≡ local root w.files))
          (rename (root ++ a) (root ++ b) w)
  rename-local a b w =
      Ensures-weaken (rename_moves (root ++ a) (root ++ b) w)
        (λ _ v h. (h.0, ap (local root) h.1 ∙ local-move_tree w.files a b, h.2))
        (λ _ v h. (h.0, ap (local root) h.1))

  pub remove_all-local :
      (a : FilePath) (w : World)
      → Ensures
          (λ _ v. SameServices w v × (local root v.files ≡ cut_tree (local root w.files) a))
          (λ _ v.
            SameServices w v
            × ((q : FilePath) → strip a q ≡ none → local root v.files q ≡ local root w.files q))
          (remove_all (root ++ a) w)
  remove_all-local a w =
      Ensures-weaken (remove_all_cuts (root ++ a) w)
        (λ _ v h. (h.0, ap (local root) h.1 ∙ local-cut_tree w.files a))
        (λ _ v h. (h.0, λ q apart. h.1 (root ++ q) (strip-append_left root a q ∙ apart)))

-- A rename that meets no fault, from a path where there is something to one where there is nothing,
-- in a directory that is there, and not below the source.
pub rename_succeeds :
    (src dst : FilePath) (n : Node) (w : World)
    → w.env.fault w.now ≡ false
    → w.files src ≡ some n
    → w.files dst ≡ none
    → is_dir (w.files (parent dst)) ≡ true
    → strip src dst ≡ none
    → Ensures
        (λ _ v. SameServices w v × (v.files ≡ move_tree w.files src dst))
        (λ _ _. ⊥)
        (rename src dst w)
unfolding rename
rename_succeeds src dst n w calm there free inside apart =
    ground (arith, calm, there, free, inside, apart)

module _ (root : FilePath) where
  pub rename-local_succeeds :
      (a : FilePath) (s : String) (n : Node) (w : World)
      → w.env.fault w.now ≡ false
      → local root w.files a ≡ some n
      → local root w.files (s ∷ []) ≡ none
      → is_dir (w.files root) ≡ true
      → strip a (s ∷ []) ≡ none
      → Ensures
          (λ _ v.
            SameServices w v × (local root v.files ≡ move_tree (local root w.files) a (s ∷ [])))
          (λ _ _. ⊥)
          (rename (root ++ a) (root ++ s ∷ []) w)
  rename-local_succeeds a s n w calm there free inside apart =
      Ensures-weaken
        (rename_succeeds (root ++ a) (root ++ s ∷ []) n w calm there free
          (ap (λ p. is_dir (w.files p)) (parent-append root s) ∙ inside)
          (strip-append_left root a (s ∷ []) ∙ apart))
        (λ _ v h. (h.0, ap (local root) h.1 ∙ local-move_tree root w.files a (s ∷ []))) (λ _ v h. h)
