-- ===== src/Updater/SequentialRuns.antt =====
-- internal/updater/sequential.go: what the steps of an update leave, when they succeed and when
-- they fail.
use photon_container.Base.{◌≡◌, sym, subst, ap, ◌∙◌, true, false, ◌⊎◌, inl, inr, List, ◌++◌}
use photon_container.Os.Files.{FilePath, Files, Reader}
use photon_container.Os.Calls.{open_file}
use photon_container.Os.Laws.{SameServices, open_file_keeps}
use photon_container.World.{World, Error, ok}
use photon_container.World.Rules.{
  Ensures, Ensures-bind, Ensures-wrapped, Ensures-weaken, Ensures-deferred_keeping, Ensures-self,
  Ensures-both,
}
use photon_container.Photon.Types.{is_serving, was_killed}
use photon_container.Photon.Server.{start}
use photon_container.Photon.Rules.{SameData, start_rule}
use photon_container.Photondata.Types.{Migrator, migrating, migrated}
use photon_container.Photondata.Layout.{data_at, temp_at, archive_at}
use photon_container.Photondata.Migrator.{run_migration, migrate_by_remove_first}
use photon_container.Photondata.Outcomes.{Unremoved, migrate_by_remove_first_lem, run_migration_lem}
use photon_container.Unarchiver.Options.{UnarchiveOption}
use photon_container.Updater.Cleanup.{
  Beside, temp_cleanup, state_kept, serving_kept, running_kept, Installed-kept,
}
use photon_container.Updater.Dependencies.{IsLawful, Installed}
use photon_container.Updater.Options.{UpdateOption, init_options, get_unarchive_options}
use photon_container.Updater.Sequential.{
  SequentialUpdater, replace_and_start, unarchive_and_replace,
}

module _ (u : SequentialUpdater) (w : World) (options : List UpdateOption)
    (source : Reader → Type 0) where
  abbrev pub root : FilePath
  root = u.photon_data_dir

  abbrev pub flags : List UnarchiveOption
  flags = get_unarchive_options (init_options options)

  abbrev pub Updated : Unit {0} → World → Type 0
  Updated _ v =
      (v.migrator.state ≡ migrated)
      × ((is_serving v.photon ≡ true) ⊎ (was_killed v.photon ≡ true))
      × Installed root u.unarchiver flags source v

  -- No process serves, and the lock is held unless the last step alone failed.
  abbrev pub Stopped : World → Type 0
  Stopped v =
      (is_serving v.photon ≡ false)
      × ((v.migrator.state ≡ migrating)
          ⊎ ((v.migrator.state ≡ migrated) × Installed root u.unarchiver flags source v))

  -- The lock is held by this update.
  abbrev pub Locked : World → Type 0
  Locked v = (v.migrator ≡ record w.migrator { state = migrating }) × (is_serving v.photon ≡ false)

  -- The new database is in place, and nothing serves it yet.
  abbrev pub Placed : World → Type 0
  Placed y =
      (is_serving y.photon ≡ false)
      × (y.migrator.state ≡ migrated)
      × Installed root u.unarchiver flags source y

  pub Updated-kept : (a : Unit {0}) (v x : World) → Beside root v x → Updated a v → Updated a x
  Updated-kept a v x k h =
      (state_kept root k migrated h.0, running_kept root k h.1, Installed-kept root k h.2)

  pub Stopped-kept : (e : Error) (v x : World) → Beside root v x → Stopped v → Stopped x
  Stopped-kept e v x k (off, inl s) =
      (serving_kept root k false off, inl (state_kept root k migrating s))
  Stopped-kept e v x k (off, inr (s, m)) =
      (serving_kept root k false off, inr (state_kept root k migrated s, Installed-kept root k m))

  pub Locked-kept : (v x : World) → SameServices v x → Locked v → Locked x
  Locked-kept v x s h = (s.migrator ∙ h.0, ap is_serving s.photon ∙ h.1)

  pub Locked-Stopped : (v : World) → Locked v → Stopped v
  Locked-Stopped v h = (h.1, inl (ap (λ (m : Migrator). m.state) h.0))

  -- The first two steps, as far as the lock.
  pub removed_rule :
      w.migrator.data_dir ≡ root ++ data_at
      → (v : World) → SameData w v
      → is_serving v.photon ≡ false
      → Ensures
          (λ run x. (run ≡ run_migration (root ++ temp_at)) × Locked x)
          (λ _. Stopped)
          (migrate_by_remove_first (root ++ temp_at) v)
  removed_rule placed v same off =
      Ensures-weaken
        (migrate_by_remove_first_lem root v
          (ap (λ (m : Migrator). m.data_dir) same.migrator ∙ placed))
        (λ _ x h. (
          h.0,
          (
            h.1.0.0 ∙ ap (λ (m : Migrator). record m { state = migrating }) same.migrator,
            ap is_serving h.1.0.1 ∙ off,
          ),
        ))
        refused
    where
      refused : (e : Error) (x : World) → Unremoved root v e x → Stopped x
      refused e x (inl (busy, _, still)) = subst Stopped (sym still) (off, inl busy)
      refused e x (inr s) = (ap is_serving s.1 ∙ off, inl (ap (λ (m : Migrator). m.state) s.0))

  module _ (placed : w.migrator.data_dir ≡ root ++ data_at) where
    -- The migration, after a run of the unarchiver that ended in `x`.
    pub run_migration-Placed :
        (r : Reader) (v x : World)
        → source r
        → u.unarchiver.unarchive r (root ++ temp_at) flags v ≡ (ok tt, x)
        → Locked x
        → Ensures (λ _. Placed) (λ _. Stopped) (run_migration (root ++ temp_at) x)
    run_migration-Placed r v x sourced run locked =
        Ensures-weaken
          (run_migration_lem root x (ap (λ (m : Migrator). m.data_dir) locked.0 ∙ placed))
          (λ _ y h. (
            ap is_serving h.0.1 ∙ locked.1,
            ap (λ (m : Migrator). m.state) h.0.0,
            record {
              archive = r;
              sourced = sourced;
              before = v;
              after = x;
              unarchived = run;
              in_place = h.1;
            },
          ))
          (λ _ y h. Locked-Stopped y (Locked-kept x y h.0 locked))

    -- The start of the server on the new database.
    pub started_rule : (y : World) → Placed y → Ensures Updated (λ _. Stopped) (start y)
    started_rule y h =
        Ensures-weaken (start_rule y h.0)
          (λ _ z s. (ap (λ (m : Migrator). m.state) s.0.migrator ∙ h.1, s.1, moved z s.0))
          (λ _ z s. (s.1, inr (ap (λ (m : Migrator). m.state) s.0.migrator ∙ h.1, moved z s.0)))
      where
        moved : (z : World) → SameData y z → Installed root u.unarchiver flags source z
        moved z s = record {
          archive = h.2.archive;
          sourced = h.2.sourced;
          before = h.2.before;
          after = h.2.after;
          unarchived = h.2.unarchived;
          in_place = λ q. ap (λ (f : Files). f (root ++ (data_at ++ q))) s.files ∙ h.2.in_place q;
        }

  module _ (laws : IsLawful root u.downloader u.unarchiver)
      (placed : w.migrator.data_dir ≡ root ++ data_at) where
    pub unarchived_rule :
        (r : Reader) (v : World)
        → Locked v
        → Ensures
            (λ _ x. Locked x × (u.unarchiver.unarchive r (root ++ temp_at) flags v ≡ (ok tt, x)))
            (λ _. Locked)
            (u.unarchiver.unarchive r (root ++ temp_at) flags v)
    unarchived_rule r v locked =
        Ensures-weaken
          (Ensures-both _ (laws.unarchive_keeps r flags v)
            (Ensures-self (u.unarchiver.unarchive r (root ++ temp_at) flags v)))
          (λ _ x h. (Locked-kept v x h.0.0 locked, h.1)) (λ _ x h. Locked-kept v x h.0.0 locked)

    pub unarchive_and_replace_lem :
        (v : World)
        → ((r : Reader) → (open_file (root ++ archive_at) v).0 ≡ ok r → source r)
        → Locked v
        → Ensures Updated
            (λ _. Stopped)
            (unarchive_and_replace u options (run_migration (root ++ temp_at)) v)
    unfolding unarchive_and_replace replace_and_start
    unarchive_and_replace_lem v from locked =
        Ensures-bind {P = λ r x. Locked x × source r} _ _ v
          (Ensures-wrapped _ _ v (
            Ensures-weaken
              (Ensures-both _ (open_file_keeps (root ++ archive_at) v)
                (Ensures-self (open_file (root ++ archive_at) v)))
              (λ r x h. (Locked-kept v x h.0.0 locked, from r (ap (λ o. o.0) h.1)))
              (λ _ x h. Locked-Stopped x (Locked-kept v x h.0.0 locked))))
          (λ r x h.
            Ensures-bind _ _ x
              (Ensures-wrapped _ _ x (
                Ensures-weaken (unarchived_rule r x h.0) (λ _ y k. k)
                  (λ _ y k. Locked-Stopped y k)))
              (λ _ y k.
                Ensures-deferred_keeping (Beside root) _ _ y (temp_cleanup root) Updated-kept
                  Stopped-kept
                  (Ensures-bind _ _ y
                    (Ensures-wrapped _ _ y (run_migration-Placed placed r x y h.1 k.1 k.0))
                    (λ _ z c. Ensures-wrapped _ _ z (started_rule placed z c)))))
