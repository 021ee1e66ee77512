-- ===== src/Updater/Sequential.antt =====
-- internal/updater/sequential.go
use photon_container.Base.{List, [], ◌∷◌}
use photon_container.Os.Files.{FilePath, Reader, join}
use photon_container.Os.Calls.{open_file, remove_all}
use photon_container.Photon.Server.{start, stop}
use photon_container.Photondata.Archive.{Archive}
use photon_container.Photondata.Migrator.{migrate_by_remove_first}
use photon_container.Updater.Dependencies.{Downloader, Unarchiver}
use photon_container.Updater.Options.{
  UpdateOption, init_options, get_archive, get_unarchive_options,
}
use photon_container.World.{M, pure, wrapped, deferred, ignored, recover, raise, ◌>>=◌, ◌>>◌}

pub record SequentialUpdater : Type 0 where
  pub downloader : Downloader
  pub unarchiver : Unarchiver
  pub photon_data_dir : FilePath

module _ (u : SequentialUpdater) where
  abbrev pub temp_dir : FilePath
  temp_dir = join u.photon_data_dir ("temp" ∷ [])

  abbrev pub archive_path : FilePath
  archive_path = join u.photon_data_dir ("photon-db.tar.bz2" ∷ [])

  -- Steps 5 and 6 of `DownloadAndUpdate`.
  unfoldable pub replace_and_start : M (Unit {0}) → M (Unit {0})
  replace_and_start run_migration = do
    wrapped "updater.SequentialUpdater.UpdateByLocalArchive: failed to run migration" run_migration
    wrapped "updater.SequentialUpdater.UpdateByLocalArchive: failed to start Photon server" start

  -- Steps 4 to 6. The temporary directory is removed once unarchiving has succeeded.
  unfoldable pub unarchive_and_replace : List UpdateOption → M (Unit {0}) → M (Unit {0})
  unarchive_and_replace options run_migration = do
    archive_file ←
        wrapped "updater.SequentialUpdater.UpdateByLocalArchive: failed to open"
          (open_file archive_path)
    wrapped "updater.SequentialUpdater.UpdateByLocalArchive: failed to unarchive" (
        u.unarchiver.unarchive archive_file temp_dir (get_unarchive_options (init_options options)))
    deferred (remove_all temp_dir) (replace_and_start run_migration)

  -- `DownloadAndUpdate`
  unfoldable pub download_and_update : Archive → List UpdateOption → M (Unit {0})
  download_and_update archive options = do
    wrapped "updater.SequentialUpdater.UpdateByLocalArchive: failed to stop Photon server" stop
    run_migration ←
        wrapped "updater.SequentialUpdater.UpdateByLocalArchive: failed to remove existing database"
          (migrate_by_remove_first temp_dir)
    wrapped "updater.SequentialUpdater.UpdateByLocalArchive: failed to download"
        (u.downloader.download (get_archive (init_options options) archive) archive_path)
    deferred (remove_all archive_path) (unarchive_and_replace options run_migration)

  -- The goroutine that `UpdateAsync` starts; its error is only logged.
  unfoldable pub update_in_background : M (Unit {0}) → M (Unit {0})
  update_in_background run_migration = deferred (remove_all temp_dir) (do run_migration; start)

  -- `UpdateAsync`: the result is the goroutine, which runs after the return.
  unfoldable pub update_async : Reader → List UpdateOption → M (M (Unit {0}))
  update_async archive options = do
    wrapped "updater.SequentialUpdater.UpdateAsync: failed to stop Photon server" stop
    run_migration ←
        wrapped "updater.SequentialUpdater.UpdateAsync: failed to remove existing database"
          (migrate_by_remove_first temp_dir)
    recover
        (wrapped "updater.SequentialUpdater.UpdateAsync: failed to unarchive"
          (u.unarchiver.unarchive archive temp_dir (get_unarchive_options (init_options options))))
        (λ e. do ignored (remove_all temp_dir); raise e)
    pure (update_in_background run_migration)
