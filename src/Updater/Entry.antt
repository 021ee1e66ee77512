-- ===== src/Updater/Entry.antt =====
-- internal/updater/updater.go: the choice of the strategy, and the checks in front of it.
use photon_container.Base.{Bool, true, false, Option, none, some, List, [], ◌*◌, if◌then◌else◌}
use photon_container.Base.Time.{Time, hour, sub, leb_ℤ}
use photon_container.Os.Files.{FilePath, Reader}
use photon_container.Photondata.Archive.{Archive}
use photon_container.Photondata.Migrator.{state, reset_state}
use photon_container.Updater.Dependencies.{Downloader, Unarchiver}
use photon_container.Updater.Options.{
  UpdateStrategy, sequential, parallel, other, UpdateOption, init_options, get_archive,
}
use photon_container.Updater.Sequential
use photon_container.Updater.Sequential.{SequentialUpdater}
use photon_container.Updater.Parallel
use photon_container.Updater.Parallel.{ParallelUpdater}
use photon_container.World.{M, failed, pure, raise, wrapped, ignored, ◌>>=◌, ◌>>◌}

-- The implementations of `UpdaterInterface` that an `Updater` passes calls on to.
pub data Strategy : Type 0 where
  by_sequence : SequentialUpdater → Strategy
  in_parallel : ParallelUpdater → Strategy

pub record Updater : Type 0 where
  pub updater_impl : Strategy
  pub downloader : Downloader

-- `New`; `none` is its error.
unfoldable pub new : UpdateStrategy → Downloader → Unarchiver → FilePath → Option Updater
new sequential dl ua dir = some (record {
  updater_impl = by_sequence (record { downloader = dl; unarchiver = ua; photon_data_dir = dir });
  downloader = dl;
})
new parallel dl ua dir = some (record {
  updater_impl = in_parallel (record { downloader = dl; unarchiver = ua; photon_data_dir = dir });
  downloader = dl;
})
new (other s) dl ua dir = none

unfoldable pub impl_download_and_update : Strategy → Archive → List UpdateOption → M (Unit {0})
impl_download_and_update (by_sequence u) = Sequential.download_and_update u
impl_download_and_update (in_parallel u) = Parallel.download_and_update u

unfoldable pub impl_update_async : Strategy → Reader → List UpdateOption → M (M (Unit {0}))
impl_update_async (by_sequence u) = Sequential.update_async u
impl_update_async (in_parallel u) = Parallel.update_async u

-- The import time is at least this much older than a database that is worth an update.
abbrev pub tolerance : Time
tolerance = 7 * 24 * hour

unfoldable pub is_newer : Time → Time → Bool
unfolding sub
is_newer last_modified import_time =
    if leb_ℤ (sub last_modified import_time) tolerance then false else true

-- `checkMigratability`
unfoldable pub check_migratability : Downloader → Archive → M Bool
check_migratability dl archive w =
    let ((_, import_time), v) = state w in
    (do
      last_modified ←
          wrapped "updater.Updater.Update: failed to get last modified time"
            (dl.get_last_modified archive)
      pure (is_newer last_modified import_time))
      v

unfoldable pub require_newer : Bool → M (Unit {0})
require_newer true = pure tt
require_newer false = raise (failed "updater.Updater.UpdateByLocalArchive: database is up to date")

module _ (u : Updater) where
  -- The other branch of `DownloadAndUpdate`, once the archive is chosen.
  unfoldable pub update_if_newer : Archive → M (Unit {0})
  unfolding require_newer
  update_if_newer archive = do
    newer ←
        wrapped "updater.Updater.UpdateByLocalArchive: failed to check migratability"
          (check_migratability u.downloader archive)
    require_newer newer
    impl_download_and_update u.updater_impl archive []

  -- `DownloadAndUpdate`. The options end here: the strategy is given none.
  unfoldable pub download_and_update : Archive → List UpdateOption → M (Unit {0})
  download_and_update archive options =
      let opts = init_options options in
      if opts.force
      then (do ignored reset_state; impl_download_and_update u.updater_impl archive [])
      else update_if_newer (get_archive opts archive)

  -- `UpdateAsync`
  unfoldable pub update_async : Reader → List UpdateOption → M (M (Unit {0}))
  update_async archive options =
      if (init_options options).force
      then (do ignored reset_state; impl_update_async u.updater_impl archive options)
      else impl_update_async u.updater_impl archive options
