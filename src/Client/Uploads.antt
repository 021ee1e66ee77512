-- ===== src/Client/Uploads.antt =====
-- internal/client/photonagent/client.go and internal/server: an upload from the file of the client
-- to the goroutine of the agent.
use photon_container.Base.{
  ◌≡◌, ◌≢◌, refl, sym, subst, ap, ◌∙◌, String, Bool, none, some, List, [], ◌∷◌, ◌++◌, append-nil,
  true, false, arith, eq_iff, if◌then◌else◌,
}
use photon_container.Base.Time.{Time, ℤ}
use photon_container.Client.Agent.{Agent, agent_net, received}
use photon_container.Client.Exchanges.{StartedAs, migrate_start-eq}
use photon_container.Client.Options.{
  UploadOption, UploadOptions, init_upload_options, to_query, upload_options-to_query,
}
use photon_container.Client.Requests.{
  Client, Sides, migrate_start, open_archive, upload_opened, start_answered, response,
}
use photon_container.Os.Calls.{open_file}
use photon_container.Os.Files.{FilePath, Reader, Bytes, file}
use photon_container.Photondata.Archive.{Archive}
use photon_container.Photondata.Layout.{data_at}
use photon_container.Photondata.Replacement.{Carried}
use photon_container.Server.Handlers.{get, Answer, migrate, upload_options}
use photon_container.Server.Requests.{Uploaded, parallel_upload}
use photon_container.Unarchiver.Options.{UnarchiveOption, no_compression}
use photon_container.Updater.AsyncRuns.{Given}
use photon_container.Updater.Dependencies.{IsLawful, Downloader}
use photon_container.Updater.Entry.{Updater, in_parallel}
use photon_container.Updater.Options.{init_options, get_unarchive_options}
use photon_container.Updater.Parallel.{ParallelUpdater}
use photon_container.Updater.ParallelRuns.{Updated, Stopped}
use photon_container.World.{Error, World, M, Result, ok, err}
use photon_container.World.Rules.{Ensures, Ensures-bind, Ensures-wrapped, Ensures-pure}

-- The reader of a file's bytes.
abbrev pub whole : Bytes → Reader
whole b = record { content = b; broken = false }

file_opened :
    (path : FilePath) (b : Bytes) (t : Time) (v : World)
    → v.files path ≡ some (file b t)
    → Ensures (λ r _. r ≡ whole b) (λ _ _. Unit {0}) (open_file path v)
unfolding open_file
file_opened path b t v h = ground (arith, h)

-- A file that is opened as an archive is read whole.
opened_whole :
    (path : FilePath) (b : Bytes) (t : Time) (v : World)
    → v.files path ≡ some (file b t)
    → Ensures (λ r _. r ≡ whole b) (λ _ _. Unit {0}) (open_archive path v)
opened_whole path b t v h =
    Ensures-bind _ _ v (Ensures-wrapped _ _ v (file_opened path b t v h)) (λ r x e.
      Ensures-bind {P = λ _ _. Unit {0}} _ _ x (Ensures-wrapped _ _ x (ground arith))
        (λ _ y _. Ensures-pure e))

pub free_query :
    (plain force : Bool) (interval : ℤ)
    → force ≡ false
    → get
        (to_query
          (record { no_complession = plain; force_update = force; progress_interval = interval }))
        "force"
      ≢ "true"
unfolding to_query
free_query true true interval h = ground (arith, h)
free_query false true interval h = ground (arith, h)
free_query true false interval h = λ e. ground (arith, (eq_iff "" "true").1 e)
free_query false false interval h = λ e. ground (arith, (eq_iff "" "true").1 e)

-- The unarchive options that the client asks for.
abbrev pub asked : UploadOptions → List UnarchiveOption
asked o = if o.no_complession then no_compression ∷ [] else []

pub flags-asked :
    (o : UploadOptions)
    → get_unarchive_options (init_options (upload_options (to_query o))) ≡ asked o
flags-asked o = (upload_options-to_query o).1

module _ (u : Updater) (archive : Archive) (metrics : World → Answer × World)
    (format : Time → String) (c : Client) (a : Agent) (options : List UploadOption) (b : Bytes)
    (P : Result (Unit {0}) × Sides Agent → Type 0)
    (not_opened : (e : Error) (x : World) → P (err e, (x, a)))
    (answered : (x : World)
      → P (
          StartedAs u archive metrics format c a x
            (migrate u archive (to_query (init_upload_options options)) (whole b) a.world))) where
  abbrev started : FilePath → World → Result (Unit {0}) × Sides Agent
  started path v =
      migrate_start (agent_net u archive metrics format c.base_url) c path options (v, a)

  by_opened :
      (path : FilePath) (v : World) (r : Result Reader) (x : World)
      → open_archive path v ≡ (r, x)
      → Ensures (λ r _. r ≡ whole b) (λ _ _. Unit {0}) (r, x)
      → P (started path v)
  unfolding migrate_start
  by_opened path v (err e) x opened h =
      subst
        (λ q. P (upload_opened (agent_net u archive metrics format c.base_url) c options q.0 q.1 a))
        (sym opened) (not_opened e x)
  by_opened path v (ok r) x opened h =
      subst P
        (sym (
          migrate_start-eq u archive metrics format c a path options v x (whole b)
            (opened ∙ ap (λ s. (ok s, x)) h.at) refl))
        (answered x)

  -- `MigrateStart` of a file that is there: an error before the agent is asked, or what it answers.
  pub migrate_start-cases :
      (path : FilePath) (t : Time) (v : World) → v.files path ≡ some (file b t) → P (started path v)
  migrate_start-cases path t v found =
      by_opened path v (open_archive path v).0 (open_archive path v).1 refl
        (opened_whole path b t v found)

module _ (p : ParallelUpdater) (dl : Downloader) (archive : Archive)
    (metrics : World → Answer × World) (format : Time → String) (c : Client) (a : Agent)
    (options : List UploadOption) (b : Bytes) where
  abbrev pub in_use : UploadOptions
  in_use = init_upload_options options

  abbrev pub agent_updater : Updater
  agent_updater = record { updater_impl = in_parallel p; downloader = dl }

  -- The database and the services of the agent are as they were.
  abbrev Kept : World → Type 0
  Kept v = Carried p.photon_data_dir data_at a.world data_at v

  abbrev Runs : List UnarchiveOption → M (Unit {0}) → World → Type 0
  Runs flags go v =
      Ensures (Updated p a.world flags (Given (whole b)))
        (λ _. Stopped p a.world flags (Given (whole b))) (go v)

  -- An error, and the agent has started nothing; or none, and it has started one goroutine. The
  -- database and the services are as they were in both cases.
  abbrev pub Sent : Result (Unit {0}) × Sides Agent → Type 0
  Sent (ok _, (_, t)) =
      (go : M (Unit {0})) × (t.goroutines ≡ a.goroutines ++ go ∷ [])
      × Kept t.world
      × Runs (asked in_use) go t.world
  Sent (err _, (_, t)) = (t.goroutines ≡ a.goroutines) × Kept t.world

  Uploaded-Sent :
      (x : World) (ans : Answer × World)
      → Uploaded p (to_query in_use) (whole b) a.world ans
      → Sent (StartedAs agent_updater archive metrics format c a x ans)
  Uploaded-Sent x ((resp, none), v) h =
      subst
        (λ s. Sent (
          start_answered (
              response s
                (some (received agent_updater archive metrics format c.base_url resp.body))),
          (x, record { world = v; goroutines = a.goroutines ++ [] }),
        ))
        (sym h.0) (append-nil a.goroutines, h.1)
  Uploaded-Sent x ((resp, some go), v) h =
      subst
        (λ s. Sent (
          start_answered (
              response s
                (some (received agent_updater archive metrics format c.base_url resp.body))),
          (x, record { world = v; goroutines = a.goroutines ++ go ∷ [] }),
        ))
        (sym h.0) (go, refl, h.1, subst (λ flags. Runs flags go v) (flags-asked in_use) h.2)

  module _ (laws : IsLawful p.photon_data_dir p.downloader p.unarchiver)
      (placed : a.world.migrator.data_dir ≡ p.photon_data_dir ++ data_at)
      (free : in_use.force_update ≡ false) where
    -- An upload by the client, not forced, of a file that is there, to an agent with the parallel
    -- strategy, lawful dependencies and a migrator over the same directory. `MigrateStart` reports
    -- an error, and the agent has started nothing; or it reports none, and the agent has started
    -- one goroutine. In both cases the agent's services and database are then as they were. The
    -- goroutine, run from there, ends without an error as a whole update does, on the bytes of the
    -- file, taken for not compressed exactly if the client says so; or with an error as a failed
    -- restart does.
    pub client_upload :
        (path : FilePath) (t : Time) (v : World)
        → v.files path ≡ some (file b t)
        → Sent (
            migrate_start
              (agent_net agent_updater archive metrics format c.base_url)
              c
              path
              options
              (v, a))
    client_upload path t v found =
        migrate_start-cases agent_updater archive metrics format c a options b Sent
          (λ e x. (refl, (record { migrator = refl; photon = refl; env = refl }, λ q. refl)))
          (λ x.
            Uploaded-Sent x (migrate agent_updater archive (to_query in_use) (whole b) a.world) (
              parallel_upload p (to_query in_use) (whole b) a.world dl archive laws placed (
                free_query in_use.no_complession in_use.force_update in_use.progress_interval
                  free)))
          path t v found
