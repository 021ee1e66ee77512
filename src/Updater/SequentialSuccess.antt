-- ===== src/Updater/SequentialSuccess.antt =====
-- internal/updater/sequential.go: a whole update that meets no fault succeeds.
use photon_container.Base.{
  ◌≡◌, ◌≢◌, sym, ap, subst, ◌∙◌, ◌++◌, ℕ, true, false, none, some, List, [],
}
use photon_container.Os.Calls.{open_file, is_dir}
use photon_container.Os.Files.{FilePath, Files, Node, Reader}
use photon_container.Os.Laws.{local}
use photon_container.Photon.Rules.{SameData}
use photon_container.Photon.Server.{stop, running}
use photon_container.Photon.Types.{exited, is_serving}
use photon_container.Photondata.Archive.{Archive}
use photon_container.Photondata.Layout.{data_at, fresh_at, temp_at, archive_at}
use photon_container.Photondata.Migrator.{run_migration, migrate_by_remove_first}
use photon_container.Photondata.Outcomes.{Removed}
use photon_container.Photondata.Replacement.{Carried}
use photon_container.Photondata.Types.{Migrator, migrating}
use photon_container.Updater.Cleanup.{Beside, temp_cleanup, archive_cleanup}
use photon_container.Updater.Dependencies.{IsLawful}
use photon_container.Updater.Options.{
  UpdateOption, get_archive, get_unarchive_options, init_options,
}
use photon_container.Updater.Preparation.{prepared-Carried, Succeeded, Succeeded-kept}
use photon_container.World.Returns.{after_wrapped, returned}
use photon_container.Updater.RestartSuccess.{stop_exits, start_again}
use photon_container.Updater.Sequential.{
  SequentialUpdater, replace_and_start, unarchive_and_replace, download_and_update,
}
use photon_container.World.{World, Env, ok}
use photon_container.World.Rules.{
  Ensures, Ensures-bind, Ensures-weaken, Ensures-wrapped, Ensures-deferred_keeping,
}
use photon_container.Updater.RemovalSuccess.{removes, migrates}

-- The world after the server was stopped, and then the old database removed.
abbrev pub after_stop : World → World
after_stop w = (stop w).1

abbrev pub after_removal : FilePath → World → World
after_removal root w = (migrate_by_remove_first (root ++ temp_at) (after_stop w)).1

module _ (u : SequentialUpdater) (w v x y : World) (n : ℕ) (r : Reader)
    (placed : w.migrator.data_dir ≡ u.photon_data_dir ++ data_at)
    (free : w.migrator.state ≢ migrating) (serves : is_serving w.photon ≡ true)
    (calm : (n : ℕ) → w.env.fault n ≡ false) (ends : w.env.ending w.now ≡ exited n)
    (opened : open_file (u.photon_data_dir ++ archive_at) v ≡ (ok r, x)) (node : Node)
    (base : is_dir (local u.photon_data_dir y.files []) ≡ true)
    (beside : local u.photon_data_dir y.files fresh_at ≡ some node) where
  abbrev root : FilePath
  root = u.photon_data_dir

  -- What is known before the migration runs: the server is stopped, the lock held, the old database
  -- gone.
  record Prepared (z : World) : Type 0 where
    data_dir : z.migrator.data_dir ≡ root ++ data_at
    calm_still : (n : ℕ) → z.env.fault n ≡ false
    stopped : running z.photon ≡ true
    gone : local root z.files data_at ≡ none

  Prepared-carried : (d z : World) → Carried root data_at d data_at z → Prepared d → Prepared z
  Prepared-carried d z h k = record {
    data_dir = ap (λ (m : Migrator). m.data_dir) h.0.migrator ∙ k.data_dir;
    calm_still = λ n. ap (λ (e : Env). e.fault n) h.0.env ∙ k.calm_still n;
    stopped = ap running h.0.photon ∙ k.stopped;
    gone = h.1 [] ∙ k.gone;
  }

  places :
      Prepared y
      → Ensures
          (λ _. Succeeded root y)
          (λ _ _. ⊥)
          (replace_and_start u (run_migration (root ++ temp_at)) y)
  unfolding replace_and_start
  places k =
      Ensures-bind _ _ y
        (Ensures-wrapped _ _ y (migrates root y k.data_dir k.calm_still node base beside k.gone))
        (λ _ z h. Ensures-wrapped _ _ z (
          Ensures-weaken
            (start_again z (ap running h.0.0.1 ∙ k.stopped)
              (ap (λ (e : Env). e.fault z.now) h.1 ∙ k.calm_still z.now))
            (λ _ q s. (
              ap (λ (m : Migrator). m.state) (s.0.migrator ∙ h.0.0.0),
              (λ p. ap (λ (f : Files). f (root ++ (data_at ++ p))) s.0.files ∙ h.0.1 p),
              s.1,
            ))
            (λ _ _ s. s)))

  replaces :
      (options : List UpdateOption)
      → u.unarchiver.unarchive r (root ++ temp_at) (get_unarchive_options (init_options options)) x
        ≡ (ok tt, y)
      → Prepared y
      → Ensures
          (λ _. Succeeded root y)
          (λ _ _. ⊥)
          (unarchive_and_replace u options (run_migration (root ++ temp_at)) v)
  unfolding unarchive_and_replace
  replaces options unarchived k = after_wrapped _ _ r x _ v opened (
      after_wrapped _ _ tt y _ x unarchived (
        Ensures-deferred_keeping (Beside root) _ _ y (temp_cleanup root)
          (λ _. Succeeded-kept root y) (λ _ _ _ _ absent. absent) (places k)))

  removed-Prepared :
      (a d : World)
      → SameData w a × (a.env ≡ w.env) × (running a.photon ≡ true)
      → Removed root a d
      → d.env ≡ a.env
      → Prepared d
  removed-Prepared a d h k e = record {
    data_dir =
        ap (λ (m : Migrator). m.data_dir) k.0.0
        ∙ (ap (λ (m : Migrator). m.data_dir) h.0.migrator ∙ placed);
    calm_still = λ i. ap (λ (z : Env). z.fault i) (e ∙ h.1) ∙ calm i;
    stopped = ap running k.0.1 ∙ h.2;
    gone = k.1 [];
  }

  -- It is enough that the archive is unarchived beside what is left of the database.
  pub sequential_update_steps :
      Carried root data_at (after_removal root w) data_at y
      → (archive : Archive) (options : List UpdateOption)
      → u.downloader.download
          (get_archive (init_options options) archive)
          (root ++ archive_at)
          (after_removal root w)
        ≡ (ok tt, v)
      → u.unarchiver.unarchive r (root ++ temp_at) (get_unarchive_options (init_options options)) x
        ≡ (ok tt, y)
      → Ensures (λ _. Succeeded root y) (λ _ _. ⊥) (download_and_update u archive options w)
  unfolding download_and_update
  sequential_update_steps carried archive options downloaded unarchived =
      let (_, s, h) = returned (stop w) (stop_exits w n serves ends) in
      let (run, m, k) = returned (migrate_by_remove_first (root ++ temp_at) (after_stop w)) (
        removes root (after_stop w) (ap (λ (m : Migrator). m.data_dir) h.0.migrator ∙ placed)
          (λ i. ap (λ (z : Env). z.fault i) h.1 ∙ calm i)
          (λ busy. free (sym (ap (λ (m : Migrator). m.state) h.0.migrator) ∙ busy))) in
      let still =
        Prepared-carried (after_removal root w) y carried
          (removed-Prepared (after_stop w) (after_removal root w) h k.0.1 k.1) in
      after_wrapped _ _ tt (after_stop w) _ w s (
        after_wrapped _ _ run (after_removal root w) _ (after_stop w) m (
          after_wrapped _ _ tt v _ (after_removal root w) downloaded (
            Ensures-deferred_keeping (Beside root) _ _ v (archive_cleanup root)
              (λ _. Succeeded-kept root y) (λ _ _ _ _ absent. absent)
              (subst
                (λ go.
                  Ensures (λ _. Succeeded root y) (λ _ _. ⊥) (unarchive_and_replace u options go v))
                (sym k.0.0) (replaces options unarchived still)))))

module _ (u : SequentialUpdater) (w v x y : World) (n : ℕ) (r : Reader)
    (laws : IsLawful u.photon_data_dir u.downloader u.unarchiver)
    (placed : w.migrator.data_dir ≡ u.photon_data_dir ++ data_at)
    (free : w.migrator.state ≢ migrating) (serves : is_serving w.photon ≡ true)
    (calm : (n : ℕ) → w.env.fault n ≡ false) (ends : w.env.ending w.now ≡ exited n)
    (opened : open_file (u.photon_data_dir ++ archive_at) v ≡ (ok r, x)) (node : Node)
    (base : is_dir (local u.photon_data_dir y.files []) ≡ true)
    (beside : local u.photon_data_dir y.files fresh_at ≡ some node) where
  -- A whole update by the sequential strategy succeeds if it meets no fault: given lawful
  -- dependencies, a migrator over the same directory in a state that is not migrating, a process
  -- that serves and ends by itself when it is told to, and an environment in which no call of the
  -- program fails; if the download, the opening of its file and the unarchiving report no error,
  -- and then the directory and the unarchived database are there; then the update reports no error,
  -- the state is migrated, what was unarchived stands where the database was, and a process serves.
  pub sequential_update_succeeds :
      (archive : Archive) (options : List UpdateOption)
      → u.downloader.download
          (get_archive (init_options options) archive)
          (u.photon_data_dir ++ archive_at)
          (after_removal u.photon_data_dir w)
        ≡ (ok tt, v)
      → u.unarchiver.unarchive r
          (u.photon_data_dir ++ temp_at)
          (get_unarchive_options (init_options options))
          x
        ≡ (ok tt, y)
      → Ensures
          (λ _. Succeeded u.photon_data_dir y)
          (λ _ _. ⊥)
          (download_and_update u archive options w)
  sequential_update_succeeds archive options downloaded unarchived =
      sequential_update_steps u w v x y n r placed free serves calm ends opened node base beside
        (prepared-Carried u.photon_data_dir u.downloader u.unarchiver laws
          (get_archive (init_options options) archive) r
          (get_unarchive_options (init_options options)) (after_removal u.photon_data_dir w) v x y
          downloaded opened unarchived)
        archive options downloaded unarchived
