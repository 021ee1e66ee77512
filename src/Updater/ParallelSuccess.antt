-- ===== src/Updater/ParallelSuccess.antt =====
-- internal/updater/parallel.go: a whole update that meets no fault succeeds.
use photon_container.Base.{◌≡◌, ◌≢◌, sym, ap, ◌∙◌, ◌++◌, ℕ, true, List, []}
use photon_container.Os.Calls.{open_file}
use photon_container.Os.Files.{FilePath, Reader}
use photon_container.Os.Laws.{SameServices}
use photon_container.Photon.Types.{exited, is_serving}
use photon_container.Photondata.Archive.{Archive}
use photon_container.Photondata.Layout.{data_at, temp_at, archive_at}
use photon_container.Photondata.Success.{IsReady}
use photon_container.Photondata.Types.{Migrator, migrating}
use photon_container.Updater.Cleanup.{Beside, temp_cleanup, archive_cleanup}
use photon_container.Updater.Dependencies.{IsLawful}
use photon_container.Updater.Preparation.{prepared-Carried, Succeeded, Succeeded-kept}
use photon_container.World.Returns.{after_wrapped}
use photon_container.Updater.Options.{UpdateOption, get_archive, init_options}
use photon_container.Updater.Parallel.{
  ParallelUpdater, restart_photon_server, unarchive_and_restart, download_and_update,
}
use photon_container.Updater.RestartSuccess.{restart_succeeds}
use photon_container.World.{World, ok}
use photon_container.World.Rules.{Ensures, Ensures-wrapped, Ensures-deferred_keeping}

module _ (u : ParallelUpdater) (w v x y : World) (n : ℕ) (r : Reader)
    (placed : w.migrator.data_dir ≡ u.photon_data_dir ++ data_at)
    (free : w.migrator.state ≢ migrating) (serves : is_serving w.photon ≡ true)
    (opened : open_file (u.photon_data_dir ++ archive_at) v ≡ (ok r, x))
    (unarchived : u.unarchiver.unarchive r (u.photon_data_dir ++ temp_at) [] x ≡ (ok tt, y))
    (ready : IsReady u.photon_data_dir y) (ends : y.env.ending y.now ≡ exited n) where
  abbrev root : FilePath
  root = u.photon_data_dir

  restarts :
      SameServices w y
      → Ensures (λ _. Succeeded root y) (λ _ _. ⊥) (restart_photon_server (root ++ temp_at) y)
  restarts same =
      restart_succeeds root y n (ap (λ (m : Migrator). m.data_dir) same.migrator ∙ placed)
        (λ busy. free (sym (ap (λ (m : Migrator). m.state) same.migrator) ∙ busy)) ready
        (ap is_serving same.photon ∙ serves) ends

  unarchives :
      SameServices w y → Ensures (λ _. Succeeded root y) (λ _ _. ⊥) (unarchive_and_restart u r x)
  unfolding unarchive_and_restart
  unarchives same =
      Ensures-deferred_keeping (Beside root) _ _ x (temp_cleanup root) (λ _. Succeeded-kept root y)
        (λ _ _ _ _ absent. absent)
        (after_wrapped _ _ tt y _ x unarchived (Ensures-wrapped _ _ y (restarts same)))

  -- It is enough that the services are as they were when the archive has been unarchived.
  pub parallel_update_steps :
      SameServices w y
      → (archive : Archive) (options : List UpdateOption)
      → u.downloader.download (get_archive (init_options options) archive) (root ++ archive_at) w
        ≡ (ok tt, v)
      → Ensures (λ _. Succeeded root y) (λ _ _. ⊥) (download_and_update u archive options w)
  unfolding download_and_update
  parallel_update_steps same archive options downloaded = after_wrapped _ _ tt v _ w downloaded (
      Ensures-deferred_keeping (Beside root) _ _ v (archive_cleanup root)
        (λ _. Succeeded-kept root y) (λ _ _ _ _ absent. absent)
        (after_wrapped _ _ r x _ v opened (unarchives same)))

module _ (u : ParallelUpdater) (w v x y : World) (n : ℕ) (r : Reader)
    (laws : IsLawful u.photon_data_dir u.downloader u.unarchiver)
    (placed : w.migrator.data_dir ≡ u.photon_data_dir ++ data_at)
    (free : w.migrator.state ≢ migrating) (serves : is_serving w.photon ≡ true)
    (opened : open_file (u.photon_data_dir ++ archive_at) v ≡ (ok r, x))
    (unarchived : u.unarchiver.unarchive r (u.photon_data_dir ++ temp_at) [] x ≡ (ok tt, y))
    (ready : IsReady u.photon_data_dir y) (ends : y.env.ending y.now ≡ exited n) where
  -- A whole update by the parallel strategy succeeds if it meets no fault: given lawful
  -- dependencies, a migrator over the same directory in a state that is not migrating, and a
  -- process that serves and ends by itself when it is told to; if the download, the opening of its
  -- file and the unarchiving report no error, and from then on no call fails, the directory, the
  -- database and the unarchived one are there, and nothing is left where the old database is set
  -- aside; then the update reports no error, the state is migrated, what was unarchived stands
  -- where the database was, and a process serves.
  pub parallel_update_succeeds :
      (archive : Archive) (options : List UpdateOption)
      → u.downloader.download
          (get_archive (init_options options) archive)
          (u.photon_data_dir ++ archive_at)
          w
        ≡ (ok tt, v)
      → Ensures
          (λ _. Succeeded u.photon_data_dir y)
          (λ _ _. ⊥)
          (download_and_update u archive options w)
  parallel_update_succeeds archive options downloaded =
      parallel_update_steps u w v x y n r placed free serves opened unarchived ready ends
        (prepared-Carried u.photon_data_dir u.downloader u.unarchiver laws
          (get_archive (init_options options) archive) r [] w v x y downloaded opened unarchived).0
        archive options downloaded
