-- ===== src/Photondata/Success.antt =====
-- internal/photondata/migrator.go: a replacement that meets no fault succeeds.
use photon_container.Base.{
  ◌≡◌, ◌≢◌, refl, sym, subst, ap, ◌∙◌, ◌++◌, ℕ, true, false, none, some, [], append-nil, arith,
}
use mathlib.Core.Path.{subst₂}
use photon_container.Os.Calls.{rename, remove_all, is_dir}
use photon_container.Os.Files.{FilePath, Node, strip, move_tree}
use photon_container.Os.Laws.{SameServices, local, rename-local_succeeds}
use photon_container.Photondata.Layout.{
  old_dir-append, unarchived_data_dir-append, data_at, old_at, fresh_at, temp_at,
}
use photon_container.Photondata.Migrator.{
  acquire, finish, set_state, replace_files, swap_in, migrate_by_replace, old_dir,
  unarchived_data_dir,
}
use photon_container.Photondata.Outcomes.{InState, migrate_by_replace_lem}
use photon_container.Photondata.Replacement.{Moved}
use photon_container.Photondata.Types.{migrating, migrated}
use photon_container.World.{World, Env, Result, ◌>>◌}
use photon_container.World.Rules.{
  Ensures, Ensures-bind, Ensures-wrapped, Ensures-weaken, Ensures-ignored, Ensures-recover,
  Ensures-both, Leaves-of,
}

-- No call fails, the directory is there, and so are the database and the one that was unarchived;
-- nothing is left where the old database is set aside.
pub record IsReady (root : FilePath) (w : World) : Type 0 where
  pub calm : (n : ℕ) → w.env.fault n ≡ false
  pub base : is_dir (local root w.files []) ≡ true
  pub database : Node
  pub in_place : local root w.files data_at ≡ some database
  pub aside : local root w.files old_at ≡ none
  pub unarchived : Node
  pub beside : local root w.files fresh_at ≡ some unarchived

abbrev pub Succeeds {ℓ} : {A : Type ℓ} → Result A × World → Type 0
Succeeds r = Ensures (λ _ _. Unit {0}) (λ _ _. ⊥) r

module _ (root : FilePath) where
  -- The database has been set aside.
  abbrev SetAside : World → World → Type 0
  SetAside w v =
      SameServices w v × (local root v.files ≡ move_tree (local root w.files) data_at old_at)

  pub is_base : (v : World) → is_dir (local root v.files []) ≡ true → is_dir (v.files root) ≡ true
  is_base v h = subst (λ p. is_dir (v.files p) ≡ true) (append-nil root) h

  set_aside :
      (w : World)
      → IsReady root w
      → Ensures
          (λ _. SetAside w)
          (λ _ _. ⊥)
          (rename (root ++ data_at) (old_dir (root ++ data_at)) w)
  unfolding strip
  set_aside w ready =
      subst (λ o. Ensures (λ _. SetAside w) (λ _ _. ⊥) (rename (root ++ data_at) o w))
        (sym (old_dir-append root))
        (rename-local_succeeds root data_at "node_1.old" ready.database w (ready.calm w.now)
          ready.in_place ready.aside (is_base w ready.base) refl)

  put_in_place :
      (w v : World)
      → IsReady root w
      → SetAside w v
      → Succeeds (rename (unarchived_data_dir (root ++ temp_at)) (root ++ data_at) v)
  unfolding strip
  put_in_place w v ready h =
      subst (λ p. Succeeds (rename p (root ++ data_at) v)) (sym (unarchived_data_dir-append root))
        (Ensures-weaken
          (rename-local_succeeds root fresh_at "node_1" ready.unarchived v
            (ap (λ (e : Env). e.fault v.now) h.0.env ∙ ready.calm v.now)
            (ap (λ f. f fresh_at) h.1 ∙ ready.beside) (ap (λ f. f data_at) h.1)
            (is_base v (ap (λ f. is_dir (f [])) h.1 ∙ ready.base)) refl)
          (λ _ _ _. tt) (λ _ _ k. k))

  replace_files-Succeeds :
      (w : World) → IsReady root w → Succeeds (replace_files (root ++ data_at) (root ++ temp_at) w)
  unfolding replace_files swap_in
  replace_files-Succeeds w ready =
      Ensures-bind {P = λ _. SetAside w} _ _ w (Ensures-wrapped _ _ w (set_aside w ready)) (λ _ v h.
        Ensures-bind {P = λ _ _. Unit {0}} _ _ v
          (Ensures-wrapped _ _ v
            (Ensures-recover _ _ v (put_in_place w v ready h) (λ _ _ _. tt) (λ e u k. absurd k)))
          (λ _ u _.
            Ensures-ignored _ u
              (Leaves-of (λ _. Unit {0}) (remove_all (old_dir (root ++ data_at)) u) tt)))

  locked-Succeeds :
      (w : World)
      → IsReady root w
      → Succeeds ((do replace_files (root ++ data_at) (root ++ temp_at); finish) w)
  unfolding finish
  locked-Succeeds w ready =
      Ensures-bind {P = λ _ _. Unit {0}} _ _ w (replace_files-Succeeds w ready)
        (λ _ v _. record { at = tt })

  locked-IsReady : (w : World) → IsReady root w → IsReady root (set_state migrating w)
  locked-IsReady w ready = record {
    calm = ready.calm;
    base = ready.base;
    database = ready.database;
    in_place = ready.in_place;
    aside = ready.aside;
    unarchived = ready.unarchived;
    beside = ready.beside;
  }

  pub acquire_succeeds :
      (w : World)
      → w.migrator.state ≢ migrating
      → Ensures (λ _ v. v ≡ set_state migrating w) (λ _ _. ⊥) (acquire w)
  unfolding acquire
  acquire_succeeds w free = ground (arith, free)

  returns :
      (w : World)
      → w.migrator.data_dir ≡ root ++ data_at
      → w.migrator.state ≢ migrating
      → IsReady root w
      → Succeeds (migrate_by_replace (root ++ temp_at) w)
  unfolding migrate_by_replace
  returns w placed free ready =
      Ensures-bind _ _ w (Ensures-wrapped _ _ w (acquire_succeeds w free)) (λ _ v h.
        subst₂ (λ d x. Succeeds ((do replace_files d (root ++ temp_at); finish) x)) (sym placed)
          (sym h) (locked-Succeeds (set_state migrating w) (locked-IsReady w ready)))

  -- `MigrateByReplace` of a migrator over the directory, in a state that is not migrating, succeeds
  -- if no call fails, the directory, the database and the unarchived one are there, and nothing is
  -- left where the old database is set aside: it reports no error, the state is migrated, and what
  -- was unarchived stands where the database was.
  pub migrate_by_replace_succeeds :
      (w : World)
      → w.migrator.data_dir ≡ root ++ data_at
      → w.migrator.state ≢ migrating
      → IsReady root w
      → Ensures
          (λ _ v. InState migrated w v × Moved root fresh_at w data_at v)
          (λ _ _. ⊥)
          (migrate_by_replace (root ++ temp_at) w)
  migrate_by_replace_succeeds w placed free ready =
      Ensures-weaken
        (Ensures-both _ (migrate_by_replace_lem root w placed) (returns w placed free ready))
        (λ _ v h. h.0) (λ _ v h. h.1)
