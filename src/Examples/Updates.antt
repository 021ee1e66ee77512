-- ===== src/Examples/Updates.antt =====
-- Whole updates of internal/updater, run, and its theorems at concrete data.
use photon_container.Base.{
  ◌≡◌, refl, ◌↔◌, ◌<◌, ◌+◌, Bool, lower_eq, true, false, Option, none, some, List, [], ◌∷◌, ◌++◌,
  ◌*◌,
}
use photon_container.Base.Time.{hour}
use photon_container.Os.Files.{Node, file, Reader}
use photon_container.Photon.Types.{exited, is_serving}
use photon_container.Photondata.Types.{MigrationState, migrated}
use photon_container.Photondata.Migrator.{state}
use photon_container.Examples.{root, env, world, archive, downloader, unarchiver, lawful}
use photon_container.Unarchiver.Options.{no_compression}
use photon_container.Updater.Options.{
  UpdateOption, with_archive_name, with_force_update, with_unarchive_options, init_options,
  get_archive,
}
use photon_container.Updater.Parallel
use photon_container.Updater.Parallel.{ParallelUpdater, restart_photon_server}
use photon_container.Updater.Sequential
use photon_container.Updater.Sequential.{SequentialUpdater}
use photon_container.Updater.ParallelRuns
use photon_container.Updater.ParallelRuns.{parallel_download_and_update}
use photon_container.Updater.SequentialRuns
use photon_container.Updater.SequentialUpdate.{sequential_download_and_update}
use photon_container.Updater.AsyncRuns.{Given, parallel_update_async, sequential_update_async}
use photon_container.Updater.Dependencies.{IsDownloaded}
use photon_container.Updater.Entry
use photon_container.Updater.Entry.{Updater, new, tolerance, is_newer, by_sequence, in_parallel}
use photon_container.Updater.Admission.{is_newer_iff, forced_download-eq, admitted_update}
use photon_container.World.{World, Result, ok, tick, wrapped, deferred, ignored, recover, ◌>>=◌}
use photon_container.Updater.Entry.{impl_download_and_update}
use photon_container.Photondata.Replacement.{Carried}
use photon_container.Photondata.Layout.{data_at}
use photon_container.Photon.Server.{start, stop}
use photon_container.Os.Files.{strip}
use photon_container.Os.Calls.{open_file, remove_all, rename}
use photon_container.Photondata.Migrator.{
  get_version, migrate_by_replace, replace_files, swap_in, acquire, finish, migrate_by_remove_first,
  run_migration,
}
use photon_container.World.Rules.{Ensures}

abbrev parallel_updater : ParallelUpdater
parallel_updater = record {
  downloader = downloader;
  unarchiver = unarchiver;
  photon_data_dir = root;
}

abbrev sequential_updater : SequentialUpdater
sequential_updater = record {
  downloader = downloader;
  unarchiver = unarchiver;
  photon_data_dir = root;
}

-- The result, whether a process serves, the state, and the file of the database and of the one
-- that was set aside.
abbrev seen :
    Result (Unit {0}) × World
    → Result (Unit {0}) × Bool × MigrationState × Option Node × Option Node
seen (r, w) = (
  r,
  is_serving w.photon,
  w.migrator.state,
  w.files (root ++ "node_1" ∷ "index" ∷ []),
  w.files (root ++ "node_1.old" ∷ "index" ∷ []),
)

abbrev calm : World
calm = world (env [] (exited 143)) migrated

abbrev new_index : Option Node
new_index = some (file (2 ∷ []) 2)

parallel_run :
    seen (Parallel.download_and_update parallel_updater archive [] calm)
    ≡ (ok tt, true, migrated, new_index, none)
unfolding Parallel.download_and_update Parallel.unarchive_and_restart restart_photon_server strip
    open_file remove_all rename wrapped deferred ignored ◌>>=◌ recover stop start migrate_by_replace
    replace_files swap_in acquire finish get_archive init_options
parallel_run = refl

sequential_run :
    seen (Sequential.download_and_update sequential_updater archive [] calm)
    ≡ (ok tt, true, migrated, new_index, none)
unfolding Sequential.download_and_update Sequential.unarchive_and_replace
    Sequential.replace_and_start strip open_file remove_all rename wrapped deferred ignored ◌>>=◌
    recover stop start migrate_by_remove_first run_migration acquire finish get_archive init_options
sequential_run = refl

parallel_download_and_update_example :
    Ensures
      (ParallelRuns.Updated parallel_updater calm []
        (IsDownloaded root downloader archive calm.env))
      (ParallelRuns.NotUpdated parallel_updater calm []
        (IsDownloaded root downloader archive calm.env))
      (Parallel.download_and_update parallel_updater archive [] calm)
unfolding get_archive init_options
parallel_download_and_update_example =
    parallel_download_and_update parallel_updater calm lawful refl archive []

sequential_download_and_update_example :
    Ensures
      (SequentialRuns.Updated sequential_updater calm []
        (IsDownloaded root downloader archive calm.env))
      (λ _.
        SequentialRuns.Stopped sequential_updater calm []
          (IsDownloaded root downloader archive calm.env))
      (Sequential.download_and_update sequential_updater archive [] calm)
unfolding get_archive init_options
sequential_download_and_update_example =
    sequential_download_and_update sequential_updater calm [] lawful refl archive

abbrev plain : Reader
plain = record { content = 9 ∷ []; broken = false }

abbrev options : List UpdateOption
options = with_unarchive_options (no_compression ∷ []) ∷ []

parallel_update_async_example :
    Ensures
      (λ go v.
        Carried root data_at calm data_at v
        × Ensures
            (ParallelRuns.Updated parallel_updater calm (no_compression ∷ []) (Given plain))
            (λ _. ParallelRuns.Stopped parallel_updater calm (no_compression ∷ []) (Given plain))
            (go v))
      (λ _ v. Carried root data_at calm data_at v)
      (Parallel.update_async parallel_updater plain options calm)
unfolding init_options
parallel_update_async_example =
    parallel_update_async parallel_updater calm options lawful refl plain

sequential_update_async_example :
    Ensures
      (λ go v.
        SequentialRuns.Locked sequential_updater calm options (Given plain) v
        × Ensures
            (SequentialRuns.Updated sequential_updater calm options (Given plain))
            (λ _. SequentialRuns.Stopped sequential_updater calm options (Given plain))
            (go v))
      (λ _. SequentialRuns.Stopped sequential_updater calm options (Given plain))
      (Sequential.update_async sequential_updater plain options calm)
sequential_update_async_example =
    sequential_update_async sequential_updater calm options lawful refl plain

abbrev updater : Updater
updater = record { updater_impl = in_parallel parallel_updater; downloader = downloader }

is_newer_iff_example :
    (is_newer (1000 * hour) (800 * hour) ≡ true) ↔ (800 * hour + tolerance < 1000 * hour)
is_newer_iff_example = is_newer_iff (1000 * hour) (800 * hour)

forced_download-eq_example :
    Entry.download_and_update updater archive
      (with_force_update ∷ with_archive_name "de.tar.bz2" ∷ [])
    ≡ Entry.download_and_update updater archive (with_force_update ∷ [])
unfolding init_options
forced_download-eq_example =
    forced_download-eq updater archive (with_force_update ∷ with_archive_name "de.tar.bz2" ∷ [])
      (with_force_update ∷ []) refl refl

admitted_update_example :
    Entry.download_and_update updater archive [] calm
    ≡ impl_download_and_update (in_parallel parallel_updater) archive [] (tick (state calm).1)
unfolding init_options get_archive state get_version lower_eq impl_download_and_update
admitted_update_example =
    admitted_update updater archive [] calm (tick (state calm).1) (2000 * hour) refl refl
