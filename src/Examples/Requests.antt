-- ===== src/Examples/Requests.antt =====
-- Requests to internal/server, and the theorems on them, on the client and on migrations at once,
-- at concrete data.
use photon_container.Base.{◌≡◌, refl, true, false, none, [], ◌∷◌, arith, eq_iff}
use photon_container.Examples.{root, env, world, archive, downloader, unarchiver, lawful}
use photon_container.Metrics.{
  collect, raised_labels, collect-state, new_migrate_status_metrics, describe, AllDescribed,
}
use photon_container.Photondata.Migrator.{state}
use photon_container.Photondata.Types.{state_text}
use photon_container.Os.Files.{Reader}
use photon_container.Photon.Types.{exited}
use photon_container.Photondata.Exclusion.{
  System, Steps, IsExclusive, takes, refused, finishes, done, more, set, Steps-IsExclusive,
}
use photon_container.Photondata.Migrator.{acquire, finish}
use photon_container.Photondata.Types.{migrated}
use photon_container.Server.Handlers.{Values, Answer, answer, empty, migrate, serve}
use photon_container.Server.Requests.{Observed, Uploaded, safe_requests, parallel_upload}
use photon_container.Updater.Entry.{Updater, in_parallel}
use photon_container.Updater.Parallel.{ParallelUpdater}
use photon_container.World.{World, Method, migration_in_progress}

abbrev calm : World
calm = world (env [] (exited 143)) migrated

abbrev parallel_updater : ParallelUpdater
parallel_updater = record {
  downloader = downloader;
  unarchiver = unarchiver;
  photon_data_dir = root;
}

abbrev updater : Updater
updater = record { updater_impl = in_parallel parallel_updater; downloader = downloader }

abbrev metrics : World → Answer × World
metrics w = (answer 200 empty, w)

abbrev no_body : Reader
no_body = record { content = []; broken = false }

safe_requests_example :
    ((serve updater archive metrics Method.get "/migrate/status" [] no_body calm).0.1 ≡ none)
    × Observed calm (serve updater archive metrics Method.get "/migrate/status" [] no_body calm).1
safe_requests_example =
    safe_requests updater archive metrics Method.get "/migrate/status" [] no_body calm refl
      (λ p. ground (arith, (eq_iff "/migrate/status" "/metrics").1 p))

abbrev upload : Values
upload = ("no_compression", "true") ∷ []

parallel_upload_example :
    Uploaded parallel_updater upload no_body calm (migrate updater archive upload no_body calm)
parallel_upload_example =
    parallel_upload parallel_updater upload no_body calm downloader archive lawful refl
      (λ p. ground (arith, (eq_iff "" "true").1 p))

abbrev start : System
start = record { world = calm; running = λ _. false }

abbrev first : System
first = record { world = (acquire calm).1; running = set (λ _. false) 0 true }

-- One migration takes the lock, another one is refused, the first ends, and the other comes again.
two_migrations : Steps start (record {
  world = (acquire (finish (acquire (acquire calm).1).1).1).1;
  running = set (set (set (λ _. false) 0 true) 0 false) 1 true;
})
unfolding acquire finish
two_migrations =
    more
      (more (more (more done (takes 0 refl refl)) (refused migration_in_progress refl))
        (finishes 0 refl))
      (takes 1 refl refl)

Steps-IsExclusive_example : IsExclusive (record {
  world = (acquire (finish (acquire (acquire calm).1).1).1).1;
  running = set (set (set (λ _. false) 0 true) 0 false) 1 true;
})
Steps-IsExclusive_example = Steps-IsExclusive start _ (λ _. refl) two_migrations

collect-state_example :
    (raised_labels (collect new_migrate_status_metrics calm).0.0
      ≡ (state_text (state calm).0.0 ∷ []) ∷ [])
    × AllDescribed (describe new_migrate_status_metrics) (
        (collect new_migrate_status_metrics calm).0.1
        ∷ (collect new_migrate_status_metrics calm).0.0)
collect-state_example = collect-state calm
