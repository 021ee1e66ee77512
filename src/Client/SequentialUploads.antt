-- ===== src/Client/SequentialUploads.antt =====
-- internal/client/photonagent/client.go and internal/server: an upload to an agent with the
-- sequential strategy.
use photon_container.Base.{
  ◌≡◌, sym, subst, ap, String, false, some, List, [], ◌∷◌, ◌++◌, if◌then◌else◌,
}
use photon_container.Base.Time.{Time}
use photon_container.Client.Agent.{Agent, agent_net}
use photon_container.Client.Exchanges.{StartedAs}
use photon_container.Client.Options.{UploadOption, UploadOptions, init_upload_options, to_query}
use photon_container.Client.Requests.{Client, Sides, migrate_start}
use photon_container.Client.Uploads.{whole, asked, migrate_start-cases, free_query, flags-asked}
use photon_container.Os.Files.{FilePath, Bytes, file}
use photon_container.Photon.Types.{is_serving}
use photon_container.Photondata.Archive.{Archive}
use photon_container.Photondata.Layout.{data_at, temp_at}
use photon_container.Photondata.Migrator.{run_migration, reset_state}
use photon_container.Photondata.Types.{migrating}
use photon_container.Server.Handlers.{Answer, migrate, uploaded, upload_options}
use photon_container.Server.Requests.{upload_options-force}
use photon_container.Unarchiver.Options.{UnarchiveOption}
use photon_container.Updater.AsyncRuns.{Given, sequential_started}
use photon_container.Updater.Dependencies.{IsLawful, Downloader}
use photon_container.Updater.Entry.{Updater, by_sequence, update_async, impl_update_async}
use photon_container.Updater.Sequential
use photon_container.Updater.Sequential.{SequentialUpdater}
use photon_container.Updater.SequentialRuns.{Stopped}
use photon_container.World.{World, M, Result, ok, err, ignored, ◌>>◌}
use photon_container.World.Rules.{Ensures, Ensures-weaken}

module _ (p : SequentialUpdater) (dl : Downloader) (archive : Archive)
    (metrics : World → Answer × World) (format : Time → String) (c : Client) (a : Agent)
    (options : List UploadOption) (b : Bytes) where
  abbrev pub in_use : UploadOptions
  in_use = init_upload_options options

  abbrev pub agent_updater : Updater
  agent_updater = record { updater_impl = by_sequence p; downloader = dl }

  -- The rest of the update, as the agent's goroutine.
  abbrev pub rest_of_update : M (Unit {0})
  rest_of_update = Sequential.update_in_background p (run_migration (p.photon_data_dir ++ temp_at))

  -- The unarchiver has just run on the bytes, the lock is held, and nothing serves.
  abbrev UnarchivedBy : List UnarchiveOption → World → Type 0
  UnarchivedBy flags y =
      (y.migrator ≡ record a.world.migrator { state = migrating })
      × (is_serving y.photon ≡ false)
      × ((x : World) × (p.unarchiver.unarchive (whole b) (p.photon_data_dir ++ temp_at) flags x
            ≡ (ok tt, y)))

  abbrev pub Unarchived : World → Type 0
  Unarchived = UnarchivedBy (asked in_use)

  -- Where the upload is reported to have succeeded.
  abbrev pub Accepted : Result (Unit {0}) × Sides Agent → Type 0
  Accepted (ok _, (_, t)) =
      (t.goroutines ≡ a.goroutines ++ rest_of_update ∷ []) × Unarchived t.world
  Accepted (err _, (_, t)) = Unit {0}

  uploaded-Accepted :
      (x : World) (r : Result (M (Unit {0}))) (v : World)
      → Ensures
          (λ go y. (go ≡ rest_of_update) × Unarchived y)
          (λ _. Stopped p a.world (upload_options (to_query in_use)) (Given (whole b)))
          (r, v)
      → Accepted (
          StartedAs agent_updater archive metrics format c a x
            (uploaded agent_updater archive r, v))
  uploaded-Accepted x (ok go) v h = (ap (λ g. a.goroutines ++ g ∷ []) h.at.0, h.at.1)
  uploaded-Accepted x (err e) v h = tt

  module _ (laws : IsLawful p.photon_data_dir p.downloader p.unarchiver)
      (placed : a.world.migrator.data_dir ≡ p.photon_data_dir ++ data_at)
      (free : in_use.force_update ≡ false) where
    started_here :
        Ensures
          (λ go y. (go ≡ rest_of_update) × Unarchived y)
          (λ _. Stopped p a.world (upload_options (to_query in_use)) (Given (whole b)))
          (Sequential.update_async p (whole b) (upload_options (to_query in_use)) a.world)
    started_here =
        subst
          (λ flags.
            Ensures (λ go y. (go ≡ rest_of_update) × UnarchivedBy flags y)
              (λ _. Stopped p a.world (upload_options (to_query in_use)) (Given (whole b)))
              (Sequential.update_async p (whole b) (upload_options (to_query in_use)) a.world))
          (flags-asked in_use)
          (Ensures-weaken
            (sequential_started p a.world (upload_options (to_query in_use)) laws placed (whole b))
            (λ go y h. (h.0, (h.1.0, h.1.1, h.2))) (λ _ y h. h))

    answered :
        (x : World)
        → Accepted (
            StartedAs agent_updater archive metrics format c a x
              (migrate agent_updater archive (to_query in_use) (whole b) a.world))
    unfolding migrate update_async impl_update_async
    answered x =
        subst
          (λ force. Accepted (
            StartedAs agent_updater archive metrics format c a x (
              let (r, v) =
                (if force
                    then (do
                      ignored reset_state
                      Sequential.update_async p (whole b) (upload_options (to_query in_use)))
                    else Sequential.update_async p (whole b) (upload_options (to_query in_use)))
                  a.world in
              (uploaded agent_updater archive r, v))))
          (sym (
            upload_options-force (to_query in_use)
              (free_query in_use.no_complession in_use.force_update in_use.progress_interval free)))
          (uploaded-Accepted x
            (Sequential.update_async p (whole b) (upload_options (to_query in_use)) a.world).0
            (Sequential.update_async p (whole b) (upload_options (to_query in_use)) a.world).1
            started_here)

    pub upload-Accepted :
        (path : FilePath) (t : Time) (v : World)
        → v.files path ≡ some (file b t)
        → Accepted (
            migrate_start
              (agent_net agent_updater archive metrics format c.base_url)
              c
              path
              options
              (v, a))
    upload-Accepted path t v found =
        migrate_start-cases agent_updater archive metrics format c a options b Accepted (λ e x. tt)
          answered path t v found
