-- ===== src/Photondata/Outcomes.antt =====
-- internal/photondata/migrator.go: what each migration leaves of the state and of the database.
use photon_container.Base.{subst, ◌≡◌, ◌≢◌, refl, ◌⊎◌, inl, inr, ap, sym, ◌++◌, none, arith}
use mathlib.Core.Path.{subst₂}
use photon_container.Os.Files.{FilePath, strip}
use photon_container.Os.Calls.{rename, remove_all}
use photon_container.Os.Laws.{SameServices, local, rename-local, remove_all-local}
use photon_container.World.{World, Error, migration_in_progress, wrap, ◌>>◌}
use photon_container.World.Rules.{
  Ensures, Ensures-bind, Ensures-wrapped, Ensures-weaken, Ensures-pure,
}
use photon_container.Photondata.Types.{MigrationState, Migrator, migrating, migrated}
use photon_container.Photondata.Layout.{
  unarchived_data_dir-append, data_at, old_at, fresh_at, temp_at,
}
use photon_container.Photondata.Migrator.{
  acquire, finish, set_state, replace_files, migrate_by_replace, run_migration,
  migrate_by_remove_first,
}
use photon_container.Photondata.Replacement.{Moved, Carried, replace_files-local}

-- A migration is refused while another one is in progress, and nothing is touched.
abbrev pub Refused : World → Error → World → Type 0
Refused w e v = (w.migrator.state ≡ migrating) × (e ≡ migration_in_progress) × (v ≡ w)

abbrev pub InState : MigrationState → World → World → Type 0
InState s w v = (v.migrator ≡ record w.migrator { state = s }) × (v.photon ≡ w.photon)

acquire_lem :
    (w : World)
    → Ensures
        (λ _ v. (w.migrator.state ≢ migrating) × (v ≡ set_state migrating w))
        (Refused w)
        (acquire w)
unfolding acquire
acquire_lem w = ground arith

finish_lem : (w : World) → Ensures (λ _ v. v ≡ set_state migrated w) (λ _ _. ⊥) (finish w)
unfolding finish
finish_lem w = ground arith

module _ (root : FilePath) (w : World) where
  -- A replacement that took the lock ends in `migrated` with the new database in place; one that
  -- fails stays in `migrating`, and the old database is in one of two places.
  abbrev Done : Unit {0} → World → Type 0
  Done _ v = InState migrated w v × Moved root fresh_at w data_at v

  abbrev Kept : World → Type 0
  Kept v = InState migrating w v × (Moved root data_at w data_at v ⊎ Moved root data_at w old_at v)

  abbrev replace_refusal : Error
  replace_refusal = wrap "photondata.Migrator.MigrateByReplace" migration_in_progress

  abbrev pub Unreplaced : Error → World → Type 0
  Unreplaced e v =
      ((w.migrator.state ≡ migrating) × (e ≡ replace_refusal) × (v ≡ w))
      ⊎ (InState migrating w v × (Moved root data_at w data_at v ⊎ Moved root data_at w old_at v))

  state_of_Carried :
      (b a : FilePath) (v : World)
      → Carried root b (set_state migrating w) a v
      → InState migrated w (set_state migrated v) × Moved root b w a (set_state migrated v)
  state_of_Carried b a v h =
      ((ap (λ (m : Migrator). record m { state = migrated }) h.0.migrator, h.0.photon), h.1)

  replace_locked :
      Ensures Done
        (λ _. Kept)
        ((do replace_files (root ++ data_at) (root ++ temp_at); finish) (set_state migrating w))
  replace_locked =
      Ensures-bind _ _ (set_state migrating w)
        (Ensures-weaken (replace_files-local root (set_state migrating w)) (λ _ v h. h)
          (λ _ v h. ((h.0.migrator, h.0.photon), h.1)))
        (λ _ v h.
          Ensures-weaken (finish_lem v)
            (λ _ u e. subst (Done tt) (sym e) (state_of_Carried fresh_at data_at v h))
            (λ e u k. absurd k))

  -- `MigrateByReplace` of a migrator over the directory. Without an error: the state is migrated,
  -- the rest of the migrator and the server are as they were, and what was unarchived stands where
  -- the database was. With an error: either the state was migrating, the error is
  -- `ErrMigrationInProgress` in its wrapping, and nothing is touched; or the state is now
  -- migrating, and the old database is in its place or where it is set aside, with all of its
  -- files.
  pub migrate_by_replace_lem :
      w.migrator.data_dir ≡ root ++ data_at
      → Ensures
          (λ _ v. InState migrated w v × Moved root fresh_at w data_at v)
          Unreplaced
          (migrate_by_replace (root ++ temp_at) w)
  unfolding migrate_by_replace
  migrate_by_replace_lem placed =
      Ensures-bind _ _ w
        (Ensures-wrapped "photondata.Migrator.MigrateByReplace" _ w (
          Ensures-weaken (acquire_lem w) (λ _ v h. h)
            (λ e v h. inl (h.0, ap (wrap "photondata.Migrator.MigrateByReplace") h.1, h.2))))
        λ _ v h.
          subst
            (λ x.
              Ensures Done Unreplaced
                ((do replace_files w.migrator.data_dir (root ++ temp_at); finish) x))
            (sym h.1)
            (subst
              (λ d.
                Ensures Done Unreplaced
                  ((do replace_files d (root ++ temp_at); finish) (set_state migrating w)))
              (sym placed) (Ensures-weaken replace_locked (λ _ u k. k) (λ _ u k. inr k)))

module _ (root : FilePath) (w : World) where
  -- The database of the old index is gone, and the lock is taken.
  abbrev pub Removed : World → Type 0
  Removed v =
      InState migrating w v
      × ((q : FilePath) → local root v.files (data_at ++ q) ≡ none)
      × Moved root temp_at w temp_at v

  abbrev pub Unremoved : Error → World → Type 0
  Unremoved e v =
      ((w.migrator.state ≡ migrating)
        × (e ≡ wrap "photondata.Migrator.MigrateByRemoveFirst" migration_in_progress)
        × (v ≡ w))
      ⊎ InState migrating w v

  remove_locked :
      Ensures
        (λ _. Removed)
        (λ _ v. InState migrating w v)
        (remove_all (root ++ data_at) (set_state migrating w))
  unfolding strip
  remove_locked =
      Ensures-weaken (remove_all-local root data_at (set_state migrating w))
        (λ _ v h. (
          (h.0.migrator, h.0.photon),
          (λ q. ap (λ f. f (data_at ++ q)) h.1),
          (λ q. ap (λ f. f (temp_at ++ q)) h.1),
        ))
        (λ _ v h. (h.0.migrator, h.0.photon))

  remove_placed :
      (v : World)
      → v ≡ set_state migrating w
      → w.migrator.data_dir ≡ root ++ data_at
      → Ensures (λ _. Removed) (λ _ u. InState migrating w u) (remove_all w.migrator.data_dir v)
  remove_placed v locked placed =
      subst₂ (λ d x. Ensures (λ _. Removed) (λ _ u. InState migrating w u) (remove_all d x))
        (sym placed) (sym locked) remove_locked

  -- `MigrateByRemoveFirst` of a migrator over the directory. Without an error: it returns the
  -- function that does the migration, the state is migrating, the rest of the migrator and the
  -- server are as they were, nothing is left of the database, and the temporary directory is as it
  -- was. With an error: either the state was migrating, the error is `ErrMigrationInProgress` in
  -- its wrapping, and nothing is touched; or the state is now migrating.
  pub migrate_by_remove_first_lem :
      w.migrator.data_dir ≡ root ++ data_at
      → Ensures
          (λ run v. (run ≡ run_migration (root ++ temp_at)) × Removed v)
          Unremoved
          (migrate_by_remove_first (root ++ temp_at) w)
  unfolding migrate_by_remove_first
  migrate_by_remove_first_lem placed =
      Ensures-bind _ _ w
        (Ensures-wrapped "photondata.Migrator.MigrateByRemoveFirst" _ w (
          Ensures-weaken (acquire_lem w) (λ _ v h. h)
            (λ e v h. inl (h.0, ap (wrap "photondata.Migrator.MigrateByRemoveFirst") h.1, h.2))))
        λ _ v h.
          Ensures-bind {P = λ _. Removed} _ _ v
            (Ensures-wrapped _ _ v
              (Ensures-weaken (remove_placed v h.1 placed) (λ _ u k. k) (λ _ u k. inr k)))
            (λ _ u k. Ensures-pure (refl, k))

  abbrev Renamed : Unit {0} → World → Type 0
  Renamed _ v = Carried root fresh_at w data_at v

  abbrev Unmoved : Error → World → Type 0
  Unmoved _ v = SameServices w v × (local root v.files ≡ local root w.files)

  -- The function that `MigrateByRemoveFirst` returns, for a migrator over the directory. Without
  -- an error: the state is migrated, the rest of the migrator and the server are as they were, and
  -- what was unarchived stands in the place of the database. With an error: the migrator, its
  -- state included, the server and all files below the directory are as they were.
  pub run_migration_lem :
      w.migrator.data_dir ≡ root ++ data_at
      → Ensures
          (λ _ v. InState migrated w v × Moved root fresh_at w data_at v)
          (λ _ v. SameServices w v × (local root v.files ≡ local root w.files))
          (run_migration (root ++ temp_at) w)
  unfolding run_migration strip
  run_migration_lem placed =
      Ensures-bind {P = λ _. Carried root fresh_at w data_at} _ _ w
        (Ensures-wrapped _ _ w (
          subst₂ (λ p d. Ensures Renamed Unmoved (rename p d w))
            (sym (unarchived_data_dir-append root)) (sym placed)
            (Ensures-weaken (rename-local root fresh_at data_at w)
              (λ _ v h. (h.0, λ q. ap (λ f. f (data_at ++ q)) h.1)) (λ _ v h. h))))
        (λ _ v h.
          Ensures-weaken (finish_lem v)
            (λ _ u e. subst (Done root w tt) (sym e) (
              (ap (λ (m : Migrator). record m { state = migrated }) h.0.migrator, h.0.photon),
              h.1,
            ))
            (λ e u k. absurd k))
