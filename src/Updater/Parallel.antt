-- ===== src/Updater/Parallel.antt =====
-- internal/updater/parallel.go
use photon_container.Base.{List, [], ◌∷◌}
use photon_container.Os.Files.{FilePath, Reader, join}
use photon_container.Os.Calls.{open_file, remove_all}
use photon_container.Photon.Server.{start, stop}
use photon_container.Photondata.Archive.{Archive}
use photon_container.Photondata.Migrator.{migrate_by_replace}
use photon_container.Updater.Dependencies.{Downloader, Unarchiver}
use photon_container.Updater.Options.{
  UpdateOption, init_options, get_archive, get_unarchive_options,
}
use photon_container.World.{M, pure, wrapped, deferred, ignored, recover, raise, ◌>>=◌, ◌>>◌}

pub record ParallelUpdater : Type 0 where
  pub downloader : Downloader
  pub unarchiver : Unarchiver
  pub photon_data_dir : FilePath

-- `restartPhotonServer`
unfoldable pub restart_photon_server : FilePath → M (Unit {0})
restart_photon_server unarchived = do
  wrapped "failed to stop Photon server" stop
  wrapped "failed to replace existing database" (migrate_by_replace unarchived)
  wrapped "failed to start Photon server" start

module _ (u : ParallelUpdater) where
  abbrev pub temp_dir : FilePath
  temp_dir = join u.photon_data_dir ("temp" ∷ [])

  abbrev pub archive_path : FilePath
  archive_path = join u.photon_data_dir ("photon-db.tar.bz2" ∷ [])

  -- From the opened archive on. The temporary directory is removed also if unarchiving fails.
  unfoldable pub unarchive_and_restart : Reader → M (Unit {0})
  unarchive_and_restart archive_file = deferred (remove_all temp_dir) do
    wrapped "updater.ParallelUpdater.UpdateByLocalArchive: failed to unarchive"
        (u.unarchiver.unarchive archive_file temp_dir [])
    wrapped "updater.ParallelUpdater.UpdateByLocalArchive: failed to restart Photon server"
        (restart_photon_server temp_dir)

  -- `DownloadAndUpdate`
  unfoldable pub download_and_update : Archive → List UpdateOption → M (Unit {0})
  download_and_update archive options = do
    wrapped "updater.ParallelUpdater.UpdateByLocalArchive: failed to download"
        (u.downloader.download (get_archive (init_options options) archive) archive_path)
    deferred (remove_all archive_path) do
      archive_file ←
          wrapped "updater.ParallelUpdater.UpdateByLocalArchive: failed to open"
            (open_file archive_path)
      unarchive_and_restart archive_file

  -- The goroutine that `UpdateAsync` starts; its error is only logged.
  unfoldable pub update_in_background : M (Unit {0})
  update_in_background = deferred (remove_all temp_dir) (restart_photon_server temp_dir)

  -- `UpdateAsync`: the result is the goroutine, which runs after the return.
  unfoldable pub update_async : Reader → List UpdateOption → M (M (Unit {0}))
  update_async archive options = do
    recover
        (wrapped "updater.ParallelUpdater.UpdateAsync: failed to unarchive"
          (u.unarchiver.unarchive archive temp_dir (get_unarchive_options (init_options options))))
        (λ e. do ignored (remove_all temp_dir); raise e)
    pure update_in_background
