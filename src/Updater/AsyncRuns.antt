-- ===== src/Updater/AsyncRuns.antt =====
-- internal/updater: `UpdateAsync` of both strategies, and the goroutine that it starts.
use photon_container.Base.{◌≡◌, refl, sym, subst, ap, List, ◌++◌}
use photon_container.Os.Files.{Reader}
use photon_container.World.{World, M, ok}
use photon_container.World.Rules.{
  Ensures, Ensures-bind, Ensures-wrapped, Ensures-weaken, Ensures-deferred_keeping, Ensures-self,
  Ensures-both, Ensures-pure, Ensures-raise, Ensures-recover, Ensures-ignored,
}
use photon_container.Photon.Rules.{stop_rule}
use photon_container.Photondata.Layout.{data_at, temp_at}
use photon_container.Photondata.Migrator.{run_migration}
use photon_container.Photondata.Replacement.{Carried}
use photon_container.Unarchiver.Options.{UnarchiveOption}
use photon_container.Updater.Cleanup.{Beside, temp_cleanup, Carried-kept}
use photon_container.Updater.Dependencies.{IsLawful}
use photon_container.Updater.Options.{UpdateOption, init_options, get_unarchive_options}
use photon_container.Updater.Parallel
use photon_container.Updater.Parallel.{ParallelUpdater}
use photon_container.Updater.ParallelRuns
use photon_container.Updater.Sequential
use photon_container.Updater.Sequential.{SequentialUpdater}
use photon_container.Updater.SequentialRuns

-- The reader that is given.
abbrev pub Given : Reader → Reader → Type 0
Given r x = x ≡ r

module _ (u : ParallelUpdater) (w : World) (options : List UpdateOption)
    (laws : IsLawful u.photon_data_dir u.downloader u.unarchiver)
    (placed : w.migrator.data_dir ≡ u.photon_data_dir ++ data_at) where
  abbrev flags : List UnarchiveOption
  flags = get_unarchive_options (init_options options)

  -- The database and the services are as they were.
  abbrev Kept : World → Type 0
  Kept v = Carried u.photon_data_dir data_at w data_at v

  -- `UpdateAsync` of the parallel strategy, given lawful dependencies and a migrator over the same
  -- directory. If it returns an error, the services and the database are as they were. If it does
  -- not, they are as they were too, and the goroutine that it started, run from that world, ends
  -- without an error as a whole update does (state migrated, what was unarchived from the reader in
  -- place, a process that serves unless a signal had killed the last one), or with an error as a
  -- failed restart does (nothing serves; migrating with the old database in one of its two places,
  -- or migrated with the new one in place).
  pub parallel_update_async :
      (r : Reader)
      → Ensures
          (λ go v.
            Kept v
            × Ensures
                (ParallelRuns.Updated u w flags (Given r))
                (λ _. ParallelRuns.Stopped u w flags (Given r))
                (go v))
          (λ _. Kept)
          (Parallel.update_async u r options w)
  unfolding Parallel.update_async Parallel.update_in_background
  parallel_update_async r =
      Ensures-bind _ _ w
        (Ensures-recover _ _ w
          (Ensures-wrapped _ _ w (
            Ensures-weaken
              (Ensures-both _ (laws.unarchive_keeps r flags w)
                (Ensures-self (u.unarchiver.unarchive r (u.photon_data_dir ++ temp_at) flags w)))
              (λ _ v h. h) (λ _ v h. h.0)))
          (λ _ v h. h)
          (λ e v h.
            Ensures-bind {P = λ _. Kept} _ _ v
              (Ensures-ignored _ v (
                Ensures-weaken (temp_cleanup u.photon_data_dir v)
                  (λ _ x k. Carried-kept u.photon_data_dir k w h)
                  (λ _ x k. Carried-kept u.photon_data_dir k w h)))
              (λ _ x k. Ensures-raise k)))
        (λ _ v h. Ensures-pure (
          h.0,
          Ensures-deferred_keeping (Beside u.photon_data_dir) _ _ v (temp_cleanup u.photon_data_dir)
              (ParallelRuns.Updated-kept u w flags (Given r))
              (λ _. ParallelRuns.Stopped-kept u w flags (Given r))
              (ParallelRuns.restarted u w flags (Given r) placed r w v refl h.1 h.0),
        ))

module _ (u : SequentialUpdater) (w : World) (options : List UpdateOption)
    (laws : IsLawful u.photon_data_dir u.downloader u.unarchiver)
    (placed : w.migrator.data_dir ≡ u.photon_data_dir ++ data_at) where
  module _ (r : Reader) where
    abbrev Updated : Unit {0} → World → Type 0
    Updated = SequentialRuns.Updated u w options (Given r)

    abbrev Stopped : World → Type 0
    Stopped = SequentialRuns.Stopped u w options (Given r)

  background :
      (r : Reader) (run : M (Unit {0})) (x y : World)
      → run ≡ run_migration (u.photon_data_dir ++ temp_at)
      → u.unarchiver.unarchive r
          (u.photon_data_dir ++ temp_at)
          (SequentialRuns.flags u w options (Given r))
          x
        ≡ (ok tt, y)
      → SequentialRuns.Locked u w options (Given r) y
      → Ensures (Updated r) (λ _. Stopped r) (Sequential.update_in_background u run y)
  unfolding Sequential.update_in_background
  background r run x y e unarchived locked =
      Ensures-deferred_keeping (Beside u.photon_data_dir) _ _ y (temp_cleanup u.photon_data_dir)
        (SequentialRuns.Updated-kept u w options (Given r))
        (SequentialRuns.Stopped-kept u w options (Given r))
        (Ensures-bind _ _ y
          (subst
            (λ m. Ensures (λ _. SequentialRuns.Placed u w options (Given r)) (λ _. Stopped r) (m y))
            (sym e)
            (SequentialRuns.run_migration-Placed u w options (Given r) placed r x y refl unarchived
              locked))
          (λ _ z c. SequentialRuns.started_rule u w options (Given r) placed z c))

  -- What `UpdateAsync` has done when it returns: the goroutine is the rest of the update, the lock
  -- is held, and the unarchiver has just run.
  pub sequential_started :
      (r : Reader)
      → Ensures
          (λ go y.
            (go ≡ Sequential.update_in_background u (run_migration (u.photon_data_dir ++ temp_at)))
            × SequentialRuns.Locked u w options (Given r) y
            × ((x : World) × (u.unarchiver.unarchive r
                    (u.photon_data_dir ++ temp_at)
                    (SequentialRuns.flags u w options (Given r))
                    x
                  ≡ (ok tt, y))))
          (λ _. Stopped r)
          (Sequential.update_async u r options w)
  unfolding Sequential.update_async
  sequential_started r =
      Ensures-bind _ _ w
        (Ensures-wrapped _ _ w (Ensures-weaken (stop_rule w) (λ _ v h. h) (λ _ v h. absurd h)))
        (λ _ v h.
          Ensures-bind _ _ v
            (Ensures-wrapped _ _ v
              (SequentialRuns.removed_rule u w options (Given r) placed v h.0 h.1))
            (λ run x k.
              Ensures-bind _ _ x
                (Ensures-recover _ _ x
                  (Ensures-wrapped _ _ x
                    (SequentialRuns.unarchived_rule u w options (Given r) laws placed r x k.1))
                  (λ _ y s. s)
                  (λ e y s.
                    Ensures-bind {P = λ _. Stopped r} _ _ y
                      (Ensures-ignored _ y (
                        Ensures-weaken (temp_cleanup u.photon_data_dir y)
                          (λ _ z c.
                            SequentialRuns.Stopped-kept u w options (Given r) e y z c
                              (SequentialRuns.Locked-Stopped u w options (Given r) y s))
                          (λ _ z c.
                            SequentialRuns.Stopped-kept u w options (Given r) e y z c
                              (SequentialRuns.Locked-Stopped u w options (Given r) y s))))
                      (λ _ z c. Ensures-raise c)))
                (λ _ y s.
                  Ensures-pure (ap (Sequential.update_in_background u) k.0, s.0, (x, s.1)))))

  -- `UpdateAsync` of the sequential strategy, given lawful dependencies and a migrator over the
  -- same directory. If it returns an error, nothing serves, and the state is migrating, or it is
  -- migrated with the new database in place. If it does not, the migrator is what it was but for
  -- the state, which is migrating, and nothing serves; and the goroutine that it started, run from
  -- that world, ends without an error as a whole update does (state migrated, what was
  -- unarchived from the reader in place, a process that serves unless a signal had killed the last
  -- one), or with an error as `UpdateAsync` itself does.
  pub sequential_update_async :
      (r : Reader)
      → Ensures
          (λ go v.
            SequentialRuns.Locked u w options (Given r) v
            × Ensures (Updated r) (λ _. Stopped r) (go v))
          (λ _. Stopped r)
          (Sequential.update_async u r options w)
  sequential_update_async r =
      Ensures-weaken (sequential_started r)
        (λ go y h. (
          h.1,
          subst (λ m. Ensures (Updated r) (λ _. Stopped r) (m y)) (sym h.0)
              (background r (run_migration (u.photon_data_dir ++ temp_at)) h.2.0 y refl h.2.1 h.1),
        ))
        (λ _ y s. s)
