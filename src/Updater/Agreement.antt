-- ===== src/Updater/Agreement.antt =====
-- internal/updater: an update does not tell apart two unarchivers that do the same with what a
-- download of its archive leaves.
use photon_container.Base.{◌≡◌, refl, ap, subst, String, List, [], ◌++◌, ◌∙◌}
use photon_container.Os.Files.{FilePath, Reader}
use photon_container.Photondata.Archive.{Archive}
use photon_container.Photondata.Layout.{temp_at}
use photon_container.Unarchiver.Options.{UnarchiveOption}
use photon_container.Updater.Dependencies.{Downloader, Unarchiver, IsDownloaded}
use photon_container.Updater.Options.{
  UpdateOption, init_options, get_archive, get_unarchive_options,
}
use photon_container.Updater.Parallel.{unarchive_and_restart}
use photon_container.Updater.Parallel
use photon_container.Updater.RemovalSuccess.{migrate_by_remove_first-env}
use photon_container.Updater.RestartSuccess.{same_env, stop-env}
use photon_container.Updater.Sequential.{unarchive_and_replace, replace_and_start}
use photon_container.Updater.Sequential
use photon_container.World.{World, M, ok, wrapped}
use photon_container.World.Agreement.{bind_agree, deferred_agree, wrapped_ok, wrapped_agree}
use photon_container.World.Frames.{Keeping}
use photon_container.World.Rules.{Leaves-world}

kept_env :
    {A : Type 0} (text : String) (m : M A) (w : World) (a : A) (v : World)
    → Keeping same_env m
    → wrapped text m w ≡ (ok a, v)
    → v.env ≡ w.env
kept_env text m w a v keeps s =
    subst (λ q. q.1.env ≡ w.env) (wrapped_ok text m w a v s)
      (Leaves-world (λ q. q.env ≡ w.env) (m w) (keeps w))

module _ (dl : Downloader) (ua ub : Unarchiver) (root : FilePath) (archive : Archive)
    (options : List UpdateOption) (w : World) where
  -- They do the same with every download of the archive.
  abbrev pub Agree : List UnarchiveOption → Type 0
  Agree o =
      (r : Reader)
      → IsDownloaded root dl (get_archive (init_options options) archive) w.env r
      → ua.unarchive r (root ++ temp_at) o ≡ ub.unarchive r (root ++ temp_at) o

  pub parallel-Agree :
      Agree []
      → Parallel.download_and_update
          (record { downloader = dl; unarchiver = ua; photon_data_dir = root })
          archive
          options
          w
        ≡ Parallel.download_and_update
            (record { downloader = dl; unarchiver = ub; photon_data_dir = root })
            archive
            options
            w
  unfolding Parallel.download_and_update unarchive_and_restart
  parallel-Agree agree = bind_agree _ _ _ w (λ _ v s. deferred_agree _ _ _ v (
      bind_agree _ _ _ v (λ r x o. deferred_agree _ _ _ x (
        wrapped_agree _ _ _ _ x (
          agree r (record {
            before = w;
            asked = refl;
            after = v;
            downloaded = wrapped_ok _ _ w tt v s;
            opened = ap (λ y. y.0) (wrapped_ok _ _ v r x o);
          }))))))

  pub sequential-Agree :
      Agree (get_unarchive_options (init_options options))
      → Sequential.download_and_update
          (record { downloader = dl; unarchiver = ua; photon_data_dir = root })
          archive
          options
          w
        ≡ Sequential.download_and_update
            (record { downloader = dl; unarchiver = ub; photon_data_dir = root })
            archive
            options
            w
  unfolding Sequential.download_and_update unarchive_and_replace replace_and_start
  sequential-Agree agree = bind_agree _ _ _ w (λ _ v s. bind_agree _ _ _ v (λ run x t.
      bind_agree _ _ _ x (λ _ y d. deferred_agree _ _ _ y (
        bind_agree _ _ _ y (λ r z o. wrapped_agree _ _ _ _ z (
          agree r (record {
            before = x;
            asked =
                kept_env _ _ v run x (migrate_by_remove_first-env (root ++ temp_at)) t
                ∙ kept_env _ _ w tt v stop-env s;
            after = y;
            downloaded = wrapped_ok _ _ x tt y d;
            opened = ap (λ q. q.0) (wrapped_ok _ _ y r z o);
          })))))))
