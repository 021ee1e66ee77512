-- ===== src/Client/Exchanges.antt =====
-- internal/client/photonagent/client.go: what its requests come to at an agent that they reach.
use photon_container.Base.{
  ◌≡◌, refl, sym, subst, ap, String, ◌<>◌, some, List, ◌++◌, append-nil, false,
}
use photon_container.Base.Time.{Time}
use photon_container.Client.Agent.{Agent, agent_net, strip_text-append, received, kept_goroutine}
use photon_container.Client.Requests.{
  Client, migrate_start, migrate_status, reset_status, open_archive, upload_opened, Net, Sides,
  start_answered, response,
}
use photon_container.Client.Options.{UploadOption, init_upload_options, to_query}
use photon_container.Os.Files.{FilePath, Reader}
use photon_container.Photondata.Archive.{Archive}
use photon_container.Photondata.Exclusion.{reset_then_acquire}
use photon_container.Photondata.Migrator.{state, reset_state, acquire}
use photon_container.Photondata.Types.{state_text}
use photon_container.Server.Handlers.{Values, Answer, serve, migrate}
use photon_container.Updater.Entry.{Updater}
use photon_container.World.{World, M, Method, Result, ok}

module _ (u : Updater) (archive : Archive) (metrics : World → Answer × World)
    (format : Time → String) (c : Client) (a : Agent) where
  -- `MigrateStatus` reports what `State` of the agent's migrator reports, and the agent is left as
  -- that leaves it.
  pub migrate_status_lem : migrate_status (agent_net u archive metrics format c.base_url) c a ≡ (
    ok (
        some (record {
          state = state_text (state a.world).0.0;
          version = format (state a.world).0.1;
        })),
    record a { world = (state a.world).1 },
  )
  unfolding migrate_status agent_net serve
  migrate_status_lem = rw (strip_text-append c.base_url "migrate/status") (
      ap
        (λ (g : List (M (Unit {0}))). (
          ok (
              some (record {
                state = state_text (state a.world).0.0;
                version = format (state a.world).0.1;
              })),
          record a { world = (state a.world).1; goroutines = g },
        ))
        (append-nil a.goroutines))

  -- `ResetStatus` succeeds, and the agent is left as `ResetState` leaves it.
  reset_status-eq :
      reset_status (agent_net u archive metrics format c.base_url) c a
      ≡ (ok tt, record a { world = (reset_state a.world).1 })
  unfolding reset_status agent_net serve
  reset_status-eq = rw (strip_text-append c.base_url "migrate/status") (
      ap
        (λ (g : List (M (Unit {0}))).
          (ok tt, record a { world = (reset_state a.world).1; goroutines = g }))
        (append-nil a.goroutines))

  -- `ResetStatus` succeeds, no goroutine is started, and the next migration of the agent gets the
  -- lock, whatever the state was and whether another migration holds it or not.
  pub reset_status_lem :
      ((reset_status (agent_net u archive metrics format c.base_url) c a).0 ≡ ok tt)
      × ((reset_status (agent_net u archive metrics format c.base_url) c a).1.goroutines
          ≡ a.goroutines)
      × ((acquire (reset_status (agent_net u archive metrics format c.base_url) c a).1.world).0
          ≡ ok tt)
  reset_status_lem =
      subst
        (λ (r : Result (Unit {0}) × Agent).
          (r.0 ≡ ok tt) × (r.1.goroutines ≡ a.goroutines) × ((acquire r.1.world).0 ≡ ok tt))
        (sym reset_status-eq) (refl, refl, reset_then_acquire a.world)

  abbrev here : Net Agent
  here = agent_net u archive metrics format c.base_url

  -- The answer to an upload and what the agent keeps, as the client sees them.
  abbrev pub StartedAs : World → Answer × World → Result (Unit {0}) × Sides Agent
  StartedAs x (ans, y) = (
    start_answered
        (response ans.0.status (some (received u archive metrics format c.base_url ans.0.body))),
    (x, record { world = y; goroutines = a.goroutines ++ kept_goroutine ans.1 }),
  )

  delivered :
      (query : Values) (x : World) (body : Reader)
      → body.broken ≡ false
      → (let (e, t) =
            here
              (record {
                method = Method.post;
                url = c.base_url <> "migrate/upload";
                query = query;
                body = body;
              })
              a in
          ◌≡◌ {A = Result (Unit {0}) × Sides Agent}
            (start_answered e, (x, t))
            (StartedAs x (migrate u archive query body a.world)))
  unfolding agent_net serve migrate
  delivered query x body whole = rw (strip_text-append c.base_url "migrate/upload") (rw whole refl)

  -- `MigrateStart`, of an archive that can be opened and read to its end, is what the agent's
  -- handler of uploads comes to.
  pub migrate_start-eq :
      (path : FilePath) (options : List UploadOption) (v x : World) (body : Reader)
      → open_archive path v ≡ (ok body, x)
      → body.broken ≡ false
      → migrate_start here c path options (v, a)
        ≡ StartedAs x (migrate u archive (to_query (init_upload_options options)) body a.world)
  unfolding migrate_start
  migrate_start-eq path options v x body opened whole =
      subst
        (λ r.
          upload_opened here c options r.0 r.1 a
          ≡ StartedAs x (migrate u archive (to_query (init_upload_options options)) body a.world))
        (sym opened) (delivered (to_query (init_upload_options options)) x body whole)
