-- ===== src/Updater/SequentialUpdate.antt =====
-- internal/updater/sequential.go: what whole updates leave, when they succeed and when they fail.
use photon_container.Updater.SequentialRuns.{
  Updated, Stopped, Locked, Updated-kept, Stopped-kept, Locked-kept, Locked-Stopped, removed_rule,
  unarchive_and_replace_lem,
}
use photon_container.Base.{◌≡◌, ◌∙◌, sym, subst, List, ◌++◌}
use photon_container.Os.Files.{Reader}
use photon_container.World.{World, ok}
use photon_container.World.Rules.{
  Ensures, Ensures-bind, Ensures-wrapped, Ensures-weaken, Ensures-deferred_keeping, Ensures-self,
  Ensures-both,
}
use photon_container.Photon.Rules.{stop_rule}
use photon_container.Photondata.Layout.{data_at, temp_at, archive_at}
use photon_container.Photondata.Archive.{Archive}
use photon_container.Photondata.Migrator.{run_migration}
use photon_container.Updater.Cleanup.{Beside, archive_cleanup}
use photon_container.Updater.Dependencies.{IsLawful, IsDownloaded}
use photon_container.Updater.RemovalSuccess.{migrate_by_remove_first-env}
use photon_container.Updater.RestartSuccess.{stop-env}
use photon_container.Updater.Options.{UpdateOption, get_archive, init_options}
use photon_container.Updater.Sequential.{
  SequentialUpdater, unarchive_and_replace, download_and_update,
}

module _ (u : SequentialUpdater) (w : World) (options : List UpdateOption)
    (laws : IsLawful u.photon_data_dir u.downloader u.unarchiver)
    (placed : w.migrator.data_dir ≡ u.photon_data_dir ++ data_at) where
  -- Whatever fails on the way, an update by the sequential strategy ends in one of two ways, given
  -- lawful dependencies and a migrator over the same directory. Without an error: the state is
  -- migrated, the database in place is what a run of the unarchiver, with the unarchive options of
  -- the update, on the file that a download of the archive had left, put in the temporary
  -- directory, and a process serves, or a signal had killed the last one. With an error: nothing
  -- serves, and the state is migrating, or it is migrated with the new database in place.
  pub sequential_download_and_update :
      (archive : Archive)
      → Ensures
          (Updated u w options (
            IsDownloaded u.photon_data_dir u.downloader
              (get_archive (init_options options) archive)
              w.env))
          (λ _. Stopped u w options (
            IsDownloaded u.photon_data_dir u.downloader
              (get_archive (init_options options) archive)
              w.env))
          (download_and_update u archive options w)
  unfolding download_and_update
  sequential_download_and_update archive =
      Ensures-bind _ _ w
        (Ensures-wrapped _ _ w (
          Ensures-weaken (Ensures-both _ (stop_rule w) (stop-env w)) (λ _ v h. h)
            (λ _ v h. absurd h.0)))
        (λ _ v h.
          Ensures-bind
            {P = λ run x.
              ((run ≡ run_migration (u.photon_data_dir ++ temp_at)) × Locked u w options source x)
              × (x.env ≡ w.env)}
            _ _ v
            (Ensures-wrapped _ _ v (
              Ensures-weaken
                (Ensures-both _ (removed_rule u w options source placed v h.0.0 h.0.1)
                  (migrate_by_remove_first-env (u.photon_data_dir ++ temp_at) v))
                (λ _ x k. (k.0, k.1 ∙ h.1)) (λ _ x k. k.0)))
            (λ run x k.
              Ensures-bind
                {P = λ _ y.
                  Locked u w options source y
                  × (u.downloader.download chosen (u.photon_data_dir ++ archive_at) x ≡ (ok tt, y))}
                _ _ x
                (Ensures-wrapped _ _ x (
                  Ensures-weaken
                    (Ensures-both _ (laws.download_keeps chosen x) (
                      Ensures-self
                        (u.downloader.download chosen (u.photon_data_dir ++ archive_at) x)))
                    (λ _ y s. (Locked-kept u w options source x y s.0.0 k.0.1, s.1))
                    (λ _ y s.
                      Locked-Stopped u w options source y
                        (Locked-kept u w options source x y s.0.0 k.0.1))))
                (λ _ y s.
                  Ensures-deferred_keeping (Beside u.photon_data_dir) _ _ y
                    (archive_cleanup u.photon_data_dir) (Updated-kept u w options source)
                    (Stopped-kept u w options source)
                    (subst
                      (λ m.
                        Ensures (Updated u w options source) (λ _. Stopped u w options source)
                          (unarchive_and_replace u options m y))
                      (sym k.0.0)
                      (unarchive_and_replace_lem u w options source laws placed y
                        (λ r o. record {
                          before = x;
                          asked = k.1;
                          after = y;
                          downloaded = s.1;
                          opened = o;
                        })
                        s.0)))))
    where
      chosen : Archive
      chosen = get_archive (init_options options) archive

      source : Reader → Type 0
      source = IsDownloaded u.photon_data_dir u.downloader chosen w.env
