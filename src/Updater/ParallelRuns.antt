-- ===== src/Updater/ParallelRuns.antt =====
-- internal/updater/parallel.go: what whole updates leave, when they succeed and when they fail.
use photon_container.Base.{
  ◌≡◌, refl, ap, ◌∙◌, true, false, ◌⊎◌, inl, inr, String, List, [], [], ◌++◌,
}
use photon_container.Os.Files.{FilePath, Files, Reader}
use photon_container.Os.Calls.{open_file}
use photon_container.Os.Laws.{SameServices, open_file_keeps}
use photon_container.World.{World, Error, ok, wrap}
use photon_container.World.Rules.{
  Ensures, Ensures-bind, Ensures-wrapped, Ensures-weaken, Ensures-deferred_keeping, Ensures-self,
  Ensures-both,
}
use photon_container.Photon.Types.{is_serving, was_killed}
use photon_container.Photondata.Types.{Migrator, migrating, migrated}
use photon_container.Photondata.Layout.{data_at, old_at, fresh_at, temp_at, archive_at}
use photon_container.Photondata.Replacement.{Moved, Carried, Carried-trans}
use photon_container.Photondata.Archive.{Archive}
use photon_container.Unarchiver.Options.{UnarchiveOption}
use photon_container.Updater.Cleanup.{
  Beside, temp_cleanup, archive_cleanup, state_kept, serving_kept, running_kept, Installed-kept,
  Carried-kept,
}
use photon_container.Updater.Dependencies.{IsLawful, Installed, IsDownloaded}
use photon_container.Updater.Options.{UpdateOption, get_archive, init_options}
use photon_container.Updater.Parallel.{
  ParallelUpdater, restart_photon_server, unarchive_and_restart, download_and_update,
}
use photon_container.Updater.Restart.{Down, restart_photon_server_lem}

module _ (u : ParallelUpdater) (w : World) (flags : List UnarchiveOption)
    (source : Reader → Type 0) where
  abbrev pub root : FilePath
  root = u.photon_data_dir

  abbrev pub restart_label : String
  restart_label = "updater.ParallelUpdater.UpdateByLocalArchive: failed to restart Photon server"

  abbrev pub Updated : Unit {0} → World → Type 0
  Updated _ v =
      (v.migrator.state ≡ migrated)
      × ((is_serving v.photon ≡ true) ⊎ (was_killed v.photon ≡ true))
      × Installed root u.unarchiver flags source v

  -- No process serves; the old database is there, or the new one has been put in place.
  abbrev pub Stopped : World → Type 0
  Stopped v =
      (is_serving v.photon ≡ false)
      × (((v.migrator.state ≡ migrating)
            × (Moved root data_at w data_at v ⊎ Moved root data_at w old_at v))
          ⊎ ((v.migrator.state ≡ migrated) × Installed root u.unarchiver flags source v))

  abbrev pub NotUpdated : Error → World → Type 0
  NotUpdated e v =
      Carried root data_at w data_at v
      ⊎ ((cause : Error) × (e ≡ wrap restart_label cause) × Stopped v)

  pub Stopped-kept : (v x : World) → Beside root v x → Stopped v → Stopped x
  Stopped-kept v x k (off, inl (s, inl m)) = (
    serving_kept root k false off,
    inl (state_kept root k migrating s, inl (λ q. k.data_kept q ∙ m q)),
  )
  Stopped-kept v x k (off, inl (s, inr m)) = (
    serving_kept root k false off,
    inl (state_kept root k migrating s, inr (λ q. k.old_kept q ∙ m q)),
  )
  Stopped-kept v x k (off, inr (s, m)) =
      (serving_kept root k false off, inr (state_kept root k migrated s, Installed-kept root k m))

  pub Updated-kept : (a : Unit {0}) (v x : World) → Beside root v x → Updated a v → Updated a x
  Updated-kept a v x k h =
      (state_kept root k migrated h.0, running_kept root k h.1, Installed-kept root k h.2)

  NotUpdated-kept : (e : Error) (v x : World) → Beside root v x → NotUpdated e v → NotUpdated e x
  NotUpdated-kept e v x k (inl h) = inl (Carried-kept root k w h)
  NotUpdated-kept e v x k (inr h) = inr (h.0, h.1, Stopped-kept v x k h.2)

  opened_kept :
      (v x : World)
      → Carried root data_at w data_at v
      → SameServices v x × (x.files ≡ v.files)
      → Carried root data_at w data_at x
  opened_kept v x h k =
      Carried-trans root data_at data_at data_at w v x h
        (k.0, λ q. ap (λ (f : Files). f (root ++ (data_at ++ q))) k.1)

  Down-Stopped :
      (x y : World)
      → Carried root data_at w data_at x
      → (Moved root fresh_at x data_at y → Installed root u.unarchiver flags source y)
      → Down root x y
      → Stopped y
  Down-Stopped x y kept place (off, inl (s, inl m)) = (off, inl (s, inl (λ q. m q ∙ kept.1 q)))
  Down-Stopped x y kept place (off, inl (s, inr m)) = (off, inl (s, inr (λ q. m q ∙ kept.1 q)))
  Down-Stopped x y kept place (off, inr (s, m)) = (off, inr (s, place m))

  -- The restart, after a run of the unarchiver that ended in `x`.
  pub restarted :
      w.migrator.data_dir ≡ root ++ data_at
      → (r : Reader) (v x : World) → source r
      → u.unarchiver.unarchive r (root ++ temp_at) flags v ≡ (ok tt, x)
      → Carried root data_at w data_at x
      → Ensures Updated (λ _. Stopped) (restart_photon_server (root ++ temp_at) x)
  restarted placed r v x sourced run kept =
      Ensures-weaken
        (restart_photon_server_lem root x
          (ap (λ (m : Migrator). m.data_dir) kept.0.migrator ∙ placed))
        (λ _ y h. (h.0, h.2, installed y h.1)) (λ _ y h. Down-Stopped x y kept (installed y) h)
    where
      installed :
          (y : World) → Moved root fresh_at x data_at y → Installed root u.unarchiver flags source y
      installed y m = record {
        archive = r;
        sourced = sourced;
        before = v;
        after = x;
        unarchived = run;
        in_place = m;
      }

module _ (u : ParallelUpdater) (w : World)
    (laws : IsLawful u.photon_data_dir u.downloader u.unarchiver)
    (placed : w.migrator.data_dir ≡ u.photon_data_dir ++ data_at) where
  unarchive_and_restart_lem :
      (source : Reader → Type 0) (v : World) (r : Reader)
      → source r
      → Carried u.photon_data_dir data_at w data_at v
      → Ensures (Updated u w [] source) (NotUpdated u w [] source) (unarchive_and_restart u r v)
  unfolding unarchive_and_restart
  unarchive_and_restart_lem source v r sourced kept =
      Ensures-deferred_keeping (Beside u.photon_data_dir) _ _ v (temp_cleanup u.photon_data_dir)
        (Updated-kept u w [] source) (NotUpdated-kept u w [] source)
        (Ensures-bind _ _ v
          (Ensures-wrapped _ _ v (
            Ensures-weaken
              (Ensures-both _ (laws.unarchive_keeps r [] v)
                (Ensures-self (u.unarchiver.unarchive r (u.photon_data_dir ++ temp_at) [] v)))
              (λ _ x h. h)
              (λ _ x h.
                inl (Carried-trans u.photon_data_dir data_at data_at data_at w v x kept h.0))))
          (λ _ x h. Ensures-wrapped _ _ x (
            Ensures-weaken
              (restarted u w [] source placed r v x sourced h.1
                (Carried-trans u.photon_data_dir data_at data_at data_at w v x kept h.0))
              (λ _ y k. k) (λ e y k. inr (e, refl, k)))))

  -- Whatever fails on the way, an update by the parallel strategy ends in one of two ways, given
  -- lawful dependencies and a migrator over the same directory. Without an error: the state is
  -- migrated, the database in place is what a run of the unarchiver, with no options, on the file
  -- that a download of the archive had left, put in the temporary directory, and a process serves,
  -- or a signal had killed the last one. With an error: the services are as they were and so is the
  -- database; or the restart failed, and then nothing serves, and either the state is still
  -- migrating with the old database in one of its two places, or it is migrated with the new
  -- database in place.
  pub parallel_download_and_update :
      (archive : Archive) (options : List UpdateOption)
      → Ensures
          (Updated u w [] (
            IsDownloaded u.photon_data_dir u.downloader
              (get_archive (init_options options) archive)
              w.env))
          (NotUpdated u w [] (
            IsDownloaded u.photon_data_dir u.downloader
              (get_archive (init_options options) archive)
              w.env))
          (download_and_update u archive options w)
  unfolding download_and_update
  parallel_download_and_update archive options =
      Ensures-bind _ _ w
        (Ensures-wrapped _ _ w (
          Ensures-weaken
            (Ensures-both _ (laws.download_keeps chosen w)
              (Ensures-self (u.downloader.download chosen (u.photon_data_dir ++ archive_at) w)))
            (λ _ v h. h) (λ _ v h. inl h.0)))
        (λ _ v h.
          Ensures-deferred_keeping (Beside u.photon_data_dir) _ _ v
            (archive_cleanup u.photon_data_dir) (Updated-kept u w [] source)
            (NotUpdated-kept u w [] source)
            (Ensures-bind
              {P = λ r x.
                Carried u.photon_data_dir data_at w data_at x
                × ((open_file (u.photon_data_dir ++ archive_at) v).0 ≡ ok r)}
              _ _ v
              (Ensures-wrapped _ _ v (
                Ensures-weaken
                  (Ensures-both _ (open_file_keeps (u.photon_data_dir ++ archive_at) v)
                    (Ensures-self (open_file (u.photon_data_dir ++ archive_at) v)))
                  (λ _ x k. (opened_kept u w [] source v x h.0 k.0, ap (λ o. o.0) k.1))
                  (λ _ x k. inl (opened_kept u w [] source v x h.0 k.0))))
              (λ r x k.
                unarchive_and_restart_lem source x r
                  (record { before = w; asked = refl; after = v; downloaded = h.1; opened = k.1 })
                  k.0)))
    where
      chosen : Archive
      chosen = get_archive (init_options options) archive

      source : Reader → Type 0
      source = IsDownloaded u.photon_data_dir u.downloader chosen w.env
