-- ===== src/Examples/Successes.antt =====
-- Whole updates of internal/updater that meet no fault, and the URL of an archive.
use photon_container.Base.{◌≡◌, some, refl, ◌++◌, [], ◌∷◌, false, arith}
use photon_container.Examples.{root, env, world, archive, downloader, unarchiver, lawful}
use photon_container.Os.Calls.{open_file}
use photon_container.Os.Files.{Reader, dir, strip}
use photon_container.Photon.Types.{exited}
use photon_container.Photondata.Archive.{Archive, ParsedUrl, new_archive, name, url}
use photon_container.Photondata.ArchiveUrls.{ArePlain, parsed, url-new_archive}
use photon_container.Photondata.Layout.{archive_at, temp_at}
use photon_container.Photondata.Success.{IsReady}
use photon_container.Photondata.Types.{migrated}
use photon_container.Updater.Options.{get_archive, init_options}
use photon_container.Updater.Parallel.{ParallelUpdater, download_and_update}
use photon_container.Updater.ParallelSuccess.{parallel_update_succeeds}
use photon_container.Updater.Preparation.{Succeeded}
use photon_container.Updater.Sequential
use photon_container.Updater.Sequential.{SequentialUpdater}
use photon_container.Updater.SequentialSuccess.{after_removal, sequential_update_succeeds}
use photon_container.Photon.Server.{stop}
use photon_container.Os.Calls.{remove_all}
use photon_container.Photondata.Migrator.{acquire, migrate_by_remove_first}
use photon_container.World.{wrapped, ◌>>=◌}
use photon_container.World.{World, ok}
use photon_container.World.Rules.{Ensures}

abbrev parallel_updater : ParallelUpdater
parallel_updater = record {
  downloader = downloader;
  unarchiver = unarchiver;
  photon_data_dir = root;
}

abbrev calm : World
calm = world (env [] (exited 143)) migrated

abbrev downloaded : World
downloaded = (downloader.download archive (root ++ archive_at) calm).1

abbrev content : Reader
content = record { content = 9 ∷ []; broken = false }

abbrev opened : World
opened = record downloaded { now = 1 }

abbrev unarchived : World
unarchived = (unarchiver.unarchive content (root ++ temp_at) [] opened).1

archive_opens : open_file (root ++ archive_at) downloaded ≡ (ok content, opened)
unfolding open_file strip
archive_opens = refl

unarchived-IsReady : IsReady root unarchived
unfolding strip
unarchived-IsReady = record {
  calm = λ n. refl;
  base = refl;
  database = dir;
  in_place = refl;
  aside = refl;
  unarchived = dir;
  beside = refl;
}

parallel_update_succeeds_example :
    Ensures
      (λ _. Succeeded root unarchived)
      (λ _ _. ⊥)
      (download_and_update parallel_updater archive [] calm)
unfolding get_archive init_options
parallel_update_succeeds_example =
    parallel_update_succeeds parallel_updater calm downloaded opened unarchived 143 content lawful
      refl (λ p. ground (arith, p)) refl archive_opens refl unarchived-IsReady refl archive [] refl

abbrev sequential_updater : SequentialUpdater
sequential_updater = record {
  downloader = downloader;
  unarchiver = unarchiver;
  photon_data_dir = root;
}

abbrev second_download : World
second_download = (downloader.download archive (root ++ archive_at) (after_removal root calm)).1

abbrev second_opened : World
second_opened = (open_file (root ++ archive_at) second_download).1

second_opens : open_file (root ++ archive_at) second_download ≡ (ok content, second_opened)
unfolding open_file strip stop migrate_by_remove_first remove_all acquire wrapped ◌>>=◌
second_opens = refl

abbrev second_unarchived : World
second_unarchived = (unarchiver.unarchive content (root ++ temp_at) [] second_opened).1

sequential_update_succeeds_example :
    Ensures
      (λ _. Succeeded root second_unarchived)
      (λ _ _. ⊥)
      (Sequential.download_and_update sequential_updater archive [] calm)
unfolding get_archive init_options open_file strip stop migrate_by_remove_first remove_all acquire
    wrapped ◌>>=◌
sequential_update_succeeds_example =
    sequential_update_succeeds sequential_updater calm second_download second_opened
      second_unarchived 143 content lawful refl (λ p. ground (arith, p)) refl (λ _. refl) refl
      second_opens dir refl refl archive [] refl refl

plain_path : ArePlain ("public" ∷ "de" ∷ [])
plain_path = ((refl, refl, refl), ((refl, refl, refl), tt))

abbrev parsed_default : ParsedUrl
parsed_default =
    parsed "https" "localhost" "public" "photon.tar.bz2" ("de" ∷ []) plain_path (refl, refl, refl)

url-new_archive_example :
    (a : Archive) × (new_archive
        (λ _. some parsed_default)
        "https://localhost/public/de/photon.tar.bz2"
        []
      ≡ some a)
    × (name a ≡ "photon.tar.bz2")
    × (url a ≡ "https://localhost/public/de/photon.tar.bz2")
url-new_archive_example =
    url-new_archive "https" "localhost" "public" "photon.tar.bz2" ("de" ∷ []) plain_path
      (refl, refl, refl) (λ _. some parsed_default) "https://localhost/public/de/photon.tar.bz2"
      refl refl
