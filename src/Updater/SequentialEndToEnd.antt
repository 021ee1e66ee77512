-- ===== src/Updater/SequentialEndToEnd.antt =====
-- internal/updater/sequential.go with internal/downloader and internal/unarchiver: a whole update,
-- from the network to the database in place.
use photon_container.Base.{
  ◌≡◌, ◌≢◌, refl, sym, ap, subst, ◌∙◌, ℕ, true, none, List, str_eq-append_right, [], ◌∷◌, ◌++◌,
  arith, append_assoc,
}
use photon_container.Downloader.Download.{downloader}
use photon_container.Os.Calls.{is_dir, remove_all, temp_name}
use photon_container.Os.Files.{FilePath, Bytes, strip, strip-append_left, strip_other, strip-beyond}
use photon_container.Os.Frames.{remove_all-At}
use photon_container.Os.Success.{whole}
use photon_container.Photon.Server.{stop}
use photon_container.Photon.Types.{exited, is_serving}
use photon_container.Photondata.Archive.{Archive}
use photon_container.Photondata.Layout.{data_at, temp_at, archive_at}
use photon_container.Photondata.Migrator.{acquire, migrate_by_remove_first, run_migration}
use photon_container.Photondata.Types.{Migrator, migrating, migrated}
use photon_container.Unarchiver.Contents.{unpack, empty_root}
use photon_container.Unarchiver.Extract.{decoded, Codec}
use photon_container.Unarchiver.Options.{UnarchiveOption}
use photon_container.Unarchiver.Refinement.{IsUnpackable}
use photon_container.Unarchiver.Writes.{IsCalm}
use photon_container.Updater.EndToEnd.{directory}
use photon_container.Updater.Fetched.{IsPublished, IsTidy, contents, fetches}
use photon_container.Updater.Options.{
  UpdateOption, get_archive, get_unarchive_options, init_options,
}
use photon_container.Updater.RemovalSuccess.{removes}
use photon_container.Updater.RestartSuccess.{stop_exits}
use photon_container.Updater.Sequential.{SequentialUpdater, download_and_update}
use photon_container.Updater.SequentialSuccess.{after_stop, after_removal, sequential_update_steps}
use photon_container.Updater.Wired.{unarchiver}
use photon_container.World.{World, Env, tick}
use photon_container.World.Frames.{Frame, Keeping, Keeping-bind, Keeping-pure, Keeping-wrapped}
use photon_container.World.Returns.{returned}
use photon_container.World.Rules.{Ensures, Ensures-weaken, Leaves-world}

-- The sequential updater over the downloader and the unarchiver of the program.
abbrev pub wired_sequential : (Bytes → Bytes) → Codec → FilePath → SequentialUpdater
wired_sequential md5 codec root = record {
  photon_data_dir = root;
  downloader = downloader md5;
  unarchiver = unarchiver codec;
}

module _ (z : FilePath) where
  -- What stands at `z` stays.
  abbrev staying : Frame
  staying = record {
    relation = λ w v. v.files z ≡ w.files z;
    refl_at = λ w. refl;
    trans_at = λ u v w h k. k ∙ h;
  }

  acquire-stays : Keeping staying acquire
  unfolding acquire
  acquire-stays w = ground arith

  remove_all-stays : (p : FilePath) → strip p z ≡ none → Keeping staying (remove_all p)
  remove_all-stays p away w =
      Ensures-weaken (remove_all-At z p away w) (λ _ _ h. h.1) (λ _ _ h. h.1)

  removal-stays :
      (t : FilePath) (w : World)
      → strip w.migrator.data_dir z ≡ none
      → (migrate_by_remove_first t w).1.files z ≡ w.files z
  unfolding migrate_by_remove_first
  removal-stays t w away = Leaves-world _ _ (
      Keeping-bind staying _ _ (Keeping-wrapped staying _ _ acquire-stays)
        (λ _.
          Keeping-bind staying _ _
            (Keeping-wrapped staying _ _ (remove_all-stays w.migrator.data_dir away))
            (λ _. Keeping-pure staying (run_migration t)))
        w)

module _ (root : FilePath) (w : World) (calm : IsCalm w.env) (tidy : IsTidy root w)
    (placed : w.migrator.data_dir ≡ root ++ data_at) (free : w.migrator.state ≢ migrating)
    (serves : is_serving w.photon ≡ true) (n : ℕ) (ends : (k : ℕ) → w.env.ending k ≡ exited n) where
  abbrev removed : World
  removed = after_removal root w

  stopped_dir : (after_stop w).migrator.data_dir ≡ root ++ data_at
  stopped_dir =
      let (_, _, h) = returned (stop w) (stop_exits w n serves (ends w.now)) in
      ap (λ (m : Migrator). m.data_dir) h.0.migrator ∙ placed

  removed-env : removed.env ≡ w.env
  removed-env =
      let (_, _, h) = returned (stop w) (stop_exits w n serves (ends w.now)) in
      let (_, _, k) = returned (migrate_by_remove_first (root ++ temp_at) (after_stop w)) (
        removes root (after_stop w) stopped_dir
          (λ i. ap (λ (e : Env). e.fault i) h.1 ∙ calm.no_fault i)
          (λ busy. free (sym (ap (λ (m : Migrator). m.state) h.0.migrator) ∙ busy))) in
      k.1 ∙ h.1

  removed_at : (z : FilePath) → strip (root ++ data_at) z ≡ none → removed.files z ≡ w.files z
  removed_at z away =
      let (_, _, h) = returned (stop w) (stop_exits w n serves (ends w.now)) in
      removal-stays z (root ++ temp_at) (after_stop w) (ap (λ p. strip p z) stopped_dir ∙ away)
      ∙ ap (λ f. f z) h.0.files

  removed-IsTidy : IsTidy root removed
  unfolding strip
  removed-IsTidy = record {
    inside =
        λ p q e. ap is_dir (removed_at p (strip-beyond root p q "node_1" e)) ∙ tidy.inside p q e;
    no_archive = removed_at _ (strip-append_left root data_at archive_at) ∙ tidy.no_archive;
    no_temp_file = λ s.
        removed_at _ (
          strip-append_left root data_at (temp_name s ∷ [])
          ∙ strip_other "node_1" (temp_name s) [] [] (str_eq-append_right "node_1" "tmp-" s refl))
        ∙ tidy.no_temp_file s;
    no_temp_dir = λ q.
        removed_at _ (
          ap (strip (root ++ data_at)) (append_assoc root temp_at q)
          ∙ strip-append_left root data_at ("temp" ∷ q))
        ∙ tidy.no_temp_dir q;
  }

  module _ (md5 : Bytes → Bytes) (codec : Codec) (archive : Archive) (options : List UpdateOption)
      (b : Bytes) (published : IsPublished md5 (get_archive (init_options options) archive) b w.env)
      (good : IsUnpackable (decoded codec (get_unarchive_options (init_options options)) (whole b)))
      (holds : is_dir (
          unpack [] empty_root
            (decoded codec (get_unarchive_options (init_options options)) (whole b)).entries
            ("photon_data" ∷ "node_1" ∷ []))
        ≡ true) where
    abbrev flags : List UnarchiveOption
    flags = get_unarchive_options (init_options options)

    abbrev source : Archive
    source = get_archive (init_options options) archive

    removed-IsCalm : IsCalm removed.env
    removed-IsCalm = subst IsCalm (sym removed-env) calm

    removed-IsPublished : IsPublished md5 source b removed.env
    removed-IsPublished = subst (IsPublished md5 source b) (sym removed-env) published

    -- A whole update by the sequential strategy, over the downloader and the unarchiver of the
    -- program, installs what the published archive describes: if no call fails, and a name for a
    -- temporary file can be drawn; if the directory is there, and nothing is
    -- left of an earlier update; if the server answers with the bytes of the archive that the
    -- options name and with their MD5 sum; if the headers of these bytes, decoded as the options say, can be read to the
    -- end, each fits, and they make the directory "photon_data/node_1"; if the migrator is over the
    -- same directory and not migrating, and a process serves and ends by itself when it is told to;
    -- then the update reports no error, the state is migrated, the directories and files at and
    -- below the database's directory are those that the headers make at "photon_data/node_1", the
    -- files with their contents and modification times, and a process serves.
    pub sequential_update_installs :
        Ensures
          (λ _ z.
            (z.migrator.state ≡ migrated)
            × ((q : FilePath)
                → z.files (root ++ (data_at ++ q))
                  ≡ unpack [] empty_root
                      (decoded codec
                        (get_unarchive_options (init_options options))
                        (whole b)).entries
                      ("photon_data" ∷ "node_1" ∷ q))
            × (is_serving z.photon ≡ true))
          (λ _ _. ⊥)
          (download_and_update (wired_sequential md5 codec root) archive options w)
    sequential_update_installs =
        let (v, (y, h)) =
          fetches md5 codec root removed removed-IsCalm removed-IsTidy source b removed-IsPublished
            flags good in
        let (node, found) =
          directory
            (contents md5 codec root removed removed-IsCalm removed-IsTidy source b
              removed-IsPublished flags good ("photon_data" ∷ "node_1" ∷ []))
            holds in
        Ensures-weaken
          (sequential_update_steps (wired_sequential md5 codec root) w v (tick v) y n (whole b)
            placed free serves calm.no_fault (ends w.now) h.opened node h.base (h.fresh [] ∙ found)
            (h.same, λ q. h.others "node_1" q refl refl refl) archive options h.downloaded
            h.unarchived)
          (λ _ z k. (k.0, (λ q. k.1 q ∙ h.fresh q), k.2)) (λ _ _ k. k)
