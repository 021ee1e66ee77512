-- ===== src/Updater/EndToEnd.antt =====
-- internal/updater/parallel.go with internal/downloader and internal/unarchiver: a whole update,
-- from the network to the database in place.
use photon_container.Base.{
  ◌≡◌, ◌≢◌, refl, ap, ◌∙◌, ℕ, true, Option, none, some, List, [], ◌∷◌, ◌++◌, arith,
}
use photon_container.Downloader.Download.{downloader}
use photon_container.Os.Calls.{is_dir}
use photon_container.Os.Files.{FilePath, Bytes, Node}
use photon_container.Os.Success.{whole}
use photon_container.Photon.Types.{exited, is_serving}
use photon_container.Photondata.Archive.{Archive}
use photon_container.Photondata.Layout.{data_at, old_at}
use photon_container.Photondata.Success.{IsReady}
use photon_container.Photondata.Types.{migrating, migrated}
use photon_container.Unarchiver.Contents.{unpack, empty_root}
use photon_container.Unarchiver.Extract.{decoded, Codec}
use photon_container.Unarchiver.Refinement.{IsUnpackable}
use photon_container.Unarchiver.Writes.{IsCalm}
use photon_container.Updater.Fetched.{IsPublished, IsTidy, IsFetched, contents, fetches}
use photon_container.Updater.Options.{UpdateOption, get_archive, init_options}
use photon_container.Updater.Parallel.{ParallelUpdater, download_and_update}
use photon_container.Updater.ParallelSuccess.{parallel_update_steps}
use photon_container.Updater.Wired.{unarchiver}
use photon_container.World.{World, tick}
use photon_container.World.Rules.{Ensures, Ensures-weaken}

-- The parallel updater over the downloader and the unarchiver of the program.
abbrev pub wired : (Bytes → Bytes) → Codec → FilePath → ParallelUpdater
wired md5 codec root = record {
  photon_data_dir = root;
  downloader = downloader md5;
  unarchiver = unarchiver codec;
}

pub directory : (o : Option Node) → is_dir o ≡ true → (n : Node) × (o ≡ some n)
directory (some n) h = (n, refl)
directory none h = ground (arith, h)

module _ (md5 : Bytes → Bytes) (codec : Codec) (root : FilePath) (w : World) (calm : IsCalm w.env)
    (tidy : IsTidy root w) (archive : Archive) (options : List UpdateOption) (b : Bytes)
    (published : IsPublished md5 (get_archive (init_options options) archive) b w.env)
    (placed : w.migrator.data_dir ≡ root ++ data_at) (free : w.migrator.state ≢ migrating)
    (serves : is_serving w.photon ≡ true) (n : ℕ) (ends : (k : ℕ) → w.env.ending k ≡ exited n) where
  abbrev source : Archive
  source = get_archive (init_options options) archive

  module _ (good : IsUnpackable (decoded codec [] (whole b)))
      (holds : is_dir (
          unpack [] empty_root (decoded codec [] (whole b)).entries ("photon_data" ∷ "node_1" ∷ []))
        ≡ true)
      (database : Node) (in_place : w.files (root ++ data_at) ≡ some database)
      (aside : w.files (root ++ old_at) ≡ none) where
    fetched-IsReady :
        (v y : World)
        → IsFetched md5 codec root w calm tidy source b published [] good v y
        → IsReady root y
    fetched-IsReady v y h =
        let found =
          directory
            (contents md5 codec root w calm tidy source b published [] good
              ("photon_data" ∷ "node_1" ∷ []))
            holds in
        record {
          calm = λ k. ap (λ e. e.fault k) h.same.env ∙ calm.no_fault k;
          base = h.base;
          database = database;
          in_place = h.others "node_1" [] refl refl refl ∙ in_place;
          aside = h.others "node_1.old" [] refl refl refl ∙ aside;
          unarchived = found.0;
          beside = h.fresh [] ∙ found.1;
        }

    -- A whole update by the parallel strategy, over the downloader and the unarchiver of the
    -- program, installs what the published archive describes: if no call fails, and a name for a
    -- temporary file can be drawn; if the directory is there with a database in it, and nothing is
    -- left of an earlier update; if the server answers with the bytes of the archive that the
    -- options name and with their MD5 sum; if the headers of these bytes can be read to the
    -- end, each fits, and they make the directory "photon_data/node_1"; if the migrator is over the
    -- same directory and not migrating, and a process serves and ends by itself when it is told to;
    -- then the update reports no error, the state is migrated, the directories and files at and
    -- below the database's directory are those that the headers make at "photon_data/node_1", the
    -- files with their contents and modification times, and a process serves.
    pub parallel_update_installs :
        Ensures
          (λ _ z.
            (z.migrator.state ≡ migrated)
            × ((q : FilePath)
                → z.files (root ++ (data_at ++ q))
                  ≡ unpack [] empty_root
                      (decoded codec [] (whole b)).entries
                      ("photon_data" ∷ "node_1" ∷ q))
            × (is_serving z.photon ≡ true))
          (λ _ _. ⊥)
          (download_and_update (wired md5 codec root) archive options w)
    parallel_update_installs =
        let (v, (y, h)) = fetches md5 codec root w calm tidy source b published [] good in
        Ensures-weaken
          (parallel_update_steps (wired md5 codec root) w v (tick v) y n (whole b) placed free
            serves h.opened h.unarchived (fetched-IsReady v y h)
            (ap (λ e. e.ending y.now) h.same.env ∙ ends y.now) h.same archive options h.downloaded)
          (λ _ z k. (k.0, (λ q. k.1 q ∙ h.fresh q), k.2)) (λ _ _ k. k)
