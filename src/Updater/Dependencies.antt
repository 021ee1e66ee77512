-- ===== src/Updater/Dependencies.antt =====
-- internal/updater/dependencies.go: the interfaces that the updaters are given. The photon server
-- and the migrator have one implementation each, which acts on its part of the world; what the
-- updaters ask of the other two is stated as laws.
use photon_container.Base.{◌≡◌, List, ◌++◌}
use photon_container.Base.Time.{Time}
use photon_container.Os.Files.{FilePath, Reader}
use photon_container.Os.Calls.{open_file}
use photon_container.Photondata.Archive.{Archive}
use photon_container.Photondata.Layout.{archive_at, data_at, fresh_at, temp_at}
use photon_container.Photondata.Replacement.{Carried, Moved}
use photon_container.Unarchiver.Options.{UnarchiveOption}
use photon_container.World.{World, Env, M, ok}
use photon_container.World.Rules.{Leaves}

pub record Downloader : Type 0 where
  pub download : Archive → FilePath → M (Unit {0})
  pub get_last_modified : Archive → M Time

pub record Unarchiver : Type 0 where
  pub unarchive : Reader → FilePath → List UnarchiveOption → M (Unit {0})

-- Downloading beside the database leaves the database and the services alone, and so does
-- unarchiving into the temporary directory, whether they fail or not.
pub record IsLawful (root : FilePath) (dl : Downloader) (ua : Unarchiver) : Type 0 where
  pub download_keeps :
      (a : Archive) (w : World)
      → Leaves (Carried root data_at w data_at) (dl.download a (root ++ archive_at) w)
  pub unarchive_keeps :
      (r : Reader) (options : List UnarchiveOption) (w : World)
      → Leaves (Carried root data_at w data_at) (ua.unarchive r (root ++ temp_at) options w)

-- The database in place is what a run of the unarchiver, on an archive from the source, left in the
-- temporary directory.
pub record Installed (root : FilePath) (ua : Unarchiver) (options : List UnarchiveOption)
    (source : Reader → Type 0) (v : World) : Type 0 where
  pub archive : Reader
  pub sourced : source archive
  pub before : World
  pub after : World
  pub unarchived : ua.unarchive archive (root ++ temp_at) options before ≡ (ok tt, after)
  pub in_place : Moved root fresh_at after data_at v

-- What is read is the file that a download of the archive has left, from the servers that answer in
-- the environment.
pub record IsDownloaded (root : FilePath) (dl : Downloader) (a : Archive) (e : Env) (r : Reader)
    : Type 0 where
  pub before : World
  pub asked : before.env ≡ e
  pub after : World
  pub downloaded : dl.download a (root ++ archive_at) before ≡ (ok tt, after)
  pub opened : (open_file (root ++ archive_at) after).0 ≡ ok r
