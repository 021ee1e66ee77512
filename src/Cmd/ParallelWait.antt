-- ===== src/Cmd/ParallelWait.antt =====
-- cmd/photon-db-updater/main.go with `-wait`, at an agent with the parallel strategy.
use photon_container.Base.{
  some, String, [], arith, ◌≡◌, refl, sym, subst, ap, ◌∙◌, List, ◌∷◌, ◌++◌, false,
}
use photon_container.Base.Time.{Time}
use photon_container.Client.Agent.{Agent, agent_net}
use photon_container.Client.Options.{UploadOption}
use photon_container.Client.Requests.{Client, Sides, migrate_start}
use photon_container.Client.Uploads.{Sent, client_upload, in_use, agent_updater}
use photon_container.Cmd.PhotonDbUpdater.{Wake, Ended, ended, elapsed, wait}
use photon_container.Cmd.Waiting.{wait_over}
use photon_container.Os.Files.{FilePath, Files, Bytes, file}
use photon_container.Photondata.Archive.{Archive}
use photon_container.Photondata.Layout.{data_at}
use photon_container.Photondata.Migrator.{state}
use photon_container.Photondata.Replacement.{Carried, Moved}
use photon_container.Photondata.Types.{Migrator, migrated}
use photon_container.Server.Handlers.{Answer}
use photon_container.Updater.Dependencies.{IsLawful, Downloader}
use photon_container.Updater.Parallel.{ParallelUpdater}
use photon_container.World.{World, M, Result, ok, err}

state-files : (w : World) → (state w).1.files ≡ w.files
unfolding state
state-files w = ground arith

module _ (p : ParallelUpdater) (dl : Downloader) (archive : Archive)
    (metrics : World → Answer × World) (format : Time → String) (c : Client) (a : Agent)
    (options : List UploadOption) (b : Bytes) where
  Sent-Carried :
      (r : Result (Unit {0}) × Sides Agent)
      → Sent p dl archive metrics format c a options b r
      → Carried p.photon_data_dir data_at a.world data_at r.1.1.world
  Sent-Carried (ok _, (_, t)) h = h.2
  Sent-Carried (err _, (_, t)) h = h.1

  abbrev pub sent : FilePath → World → Result (Unit {0}) × Sides Agent
  sent path v =
      migrate_start
        (agent_net (agent_updater p dl archive metrics format c a options b) archive metrics format
          c.base_url)
        c path options (v, a)

  Sent-pending :
      (r : Result (Unit {0}) × Sides Agent)
      → Sent p dl archive metrics format c a options b r
      → r.0 ≡ ok tt
      → (go : M (Unit {0})) × (r.1.1.goroutines ≡ a.goroutines ++ go ∷ [])
  Sent-pending (ok _, (_, t)) h e = (h.0, h.1)
  Sent-pending (err _, (_, t)) h e = cc

  -- With the parallel strategy the wait may end before the database is replaced. If the state of
  -- the agent was migrated when an upload, not forced, of a file that is there began, which
  -- `MigrateStart` reports no error of, and the goroutine that it started has not run yet when the
  -- program polls for the first time, then the wait ends there without an error, while the old
  -- database is still in place and the goroutine has yet to run.
  pub parallel_wait_early :
      IsLawful p.photon_data_dir p.downloader p.unarchiver
      → a.world.migrator.data_dir ≡ p.photon_data_dir ++ data_at
      → (in_use p dl archive metrics format c a options b).force_update ≡ false
      → a.world.migrator.state ≡ migrated
      → (path : FilePath) (t : Time) (v : World) (rest : List (Wake Agent))
      → v.files path ≡ some (file b t)
      → (sent path v).0 ≡ ok tt
      → (let (e, z) =
            wait
              (agent_net
                (agent_updater p dl archive metrics format c a options b)
                archive
                metrics
                format
                c.base_url)
              c
              (elapsed (λ s. s) ∷ rest)
              (sent path v).1.1 in
          (e ≡ ended (ok tt))
          × Moved p.photon_data_dir data_at a.world data_at z.world
          × ((go : M (Unit {0})) × (z.goroutines ≡ a.goroutines ++ go ∷ [])))
  parallel_wait_early laws placed free done path t v rest found accepted =
      let h =
        client_upload p dl archive metrics format c a options b laws placed free path t v found in
      let kept = Sent-Carried (sent path v) h in
      subst
        (λ (r : Ended × Agent).
          (r.0 ≡ ended (ok tt))
          × Moved p.photon_data_dir data_at a.world data_at r.1.world
          × ((go : M (Unit {0})) × (r.1.goroutines ≡ a.goroutines ++ go ∷ [])))
        (sym (
          wait_over (agent_updater p dl archive metrics format c a options b) archive metrics format
            c (λ s. s) rest (sent path v).1.1
            (ap (λ (m : Migrator). m.state) kept.0.migrator ∙ done)))
        (
          refl,
          (λ q.
              ap (λ (f : Files). f (p.photon_data_dir ++ (data_at ++ q)))
                (state-files (sent path v).1.1.world)
              ∙ kept.1 q),
          Sent-pending (sent path v) h accepted,
        )
