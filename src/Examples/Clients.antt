-- ===== src/Examples/Clients.antt =====
-- The client of internal/client and cmd/photon-db-updater before an agent, at concrete data.
use photon_container.Base.{◌≡◌, ◌≢◌, refl, lower_eq, true, false, String, some, List, [], ◌∷◌}
use photon_container.Base.Time.{Time}
use photon_container.Client.Agent.{Agent, agent_net, strip_text, run_next}
use photon_container.Client.Exchanges.{reset_status_lem}
use photon_container.Client.Options.{
  UploadOption, init_upload_options, to_query, with_no_compressed_archive,
}
use photon_container.Client.Requests.{
  Client, Request, Exchange, migrate_start, migrate_status, reset_status,
}
use photon_container.Client.Uploads.{Sent, whole, client_upload}
use photon_container.Cmd.ParallelWait.{parallel_wait_early}
use photon_container.Cmd.PhotonDbUpdater.{still_waiting, ended, Wake, signalled, elapsed, wait}
use photon_container.Cmd.SequentialWait.{sequential_wait, works}
use photon_container.Cmd.Waiting.{wait_ends, wait_stuck, each_elapsed}
use photon_container.Examples.{root, env, world, archive, downloader, unarchiver, lawful}
use photon_container.Os.Calls.{open_file, rename, remove_all}
use photon_container.Os.Files.{FilePath, Bytes, file, strip, put_node}
use photon_container.Photon.Server.{start, stop}
use photon_container.Photon.Types.{exited, new_server_command}
use photon_container.Photondata.Migrator.{
  acquire, finish, migrate_by_remove_first, run_migration, state, get_version,
}
use photon_container.Photondata.Types.{migrated, migrating}
use photon_container.Server.Handlers.{Answer, answer, empty, serve, migrate, upload_options}
use photon_container.Updater.AsyncRuns.{Given}
use photon_container.Updater.Dependencies.{Installed}
use photon_container.Updater.Entry.{
  Updater, by_sequence, in_parallel, update_async, impl_update_async,
}
use photon_container.Updater.Options.{init_options as init_update}
use photon_container.Updater.Parallel
use photon_container.Updater.Parallel.{ParallelUpdater}
use photon_container.Updater.Sequential
use photon_container.Updater.Sequential.{SequentialUpdater}
use photon_container.Photondata.Layout.{data_at}
use photon_container.Photondata.Replacement.{Moved}
use photon_container.Unarchiver.Options.{no_compression}
use photon_container.World.{World, M, ok, wrapped, deferred, recover, ◌>>=◌}

abbrev calm : World
calm = world (env [] (exited 143)) migrated

abbrev parallel_updater : ParallelUpdater
parallel_updater = record {
  downloader = downloader;
  unarchiver = unarchiver;
  photon_data_dir = root;
}

abbrev sequential_updater : SequentialUpdater
sequential_updater = record {
  downloader = downloader;
  unarchiver = unarchiver;
  photon_data_dir = root;
}

abbrev metrics : World → Answer × World
metrics w = (answer 200 empty, w)

abbrev format : Time → String
format _ = "2024-01-01T00:00:00Z"

abbrev client : Client
client = record { base_url = "http://a/" }

abbrev agent : Agent
agent = record { world = calm; goroutines = [] }

abbrev updater : Updater
updater = record { updater_impl = in_parallel parallel_updater; downloader = downloader }

abbrev sequential : Updater
sequential = record { updater_impl = by_sequence sequential_updater; downloader = downloader }

-- The client's own files: an archive of two bytes.
abbrev archive_path : FilePath
archive_path = "photon-db.tar.bz2" ∷ []

abbrev archive_bytes : Bytes
archive_bytes = 8 ∷ 9 ∷ []

abbrev local : World
local = record calm { files = put_node calm.files archive_path (some (file archive_bytes 1)) }

abbrev plain : List UploadOption
plain = with_no_compressed_archive ∷ []

client_upload_example :
    Sent parallel_updater downloader archive metrics format client agent plain archive_bytes (
      migrate_start
        (agent_net updater archive metrics format "http://a/")
        client
        archive_path
        plain
        (local, agent))
unfolding init_upload_options strip
client_upload_example =
    client_upload parallel_updater downloader archive metrics format client agent plain
      archive_bytes lawful refl refl archive_path 1 local refl

abbrev busy : Agent
busy = record { world = world (env [] (exited 143)) migrating; goroutines = [] }

reset_status_lem_example :
    ((reset_status (agent_net updater archive metrics format "http://a/") client busy).0 ≡ ok tt)
    × ((reset_status
          (agent_net updater archive metrics format "http://a/")
          client
          busy).1.goroutines
        ≡ [])
    × ((acquire
          (reset_status
            (agent_net updater archive metrics format "http://a/")
            client
            busy).1.world).0
        ≡ ok tt)
reset_status_lem_example = reset_status_lem updater archive metrics format client busy

wait_ends_example :
    (wait
      (agent_net updater archive metrics format "http://a/")
      client
      (elapsed (λ a. a) ∷ signalled ∷ [])
      busy).0
    ≢ still_waiting
wait_ends_example =
    wait_ends (agent_net updater archive metrics format "http://a/") client
      (elapsed (λ a. a) ∷ signalled ∷ []) busy refl

wait_stuck_example :
    (wait
      (agent_net updater archive metrics format "http://a/")
      client
      (each_elapsed ((λ a. a) ∷ (λ a. a) ∷ []))
      busy).0
    ≡ still_waiting
wait_stuck_example =
    wait_stuck updater archive metrics format client ((λ a. a) ∷ (λ a. a) ∷ []) busy
      ((λ b h. h), ((λ b h. h), tt)) refl

abbrev parallel_net : Request → Agent → Exchange × Agent
parallel_net = agent_net updater archive metrics format "http://a/"

abbrev sequential_net : Request → Agent → Exchange × Agent
sequential_net = agent_net sequential archive metrics format "http://a/"

abbrev answered : Agent
answered = (migrate_start parallel_net client archive_path plain (local, agent)).1.1

abbrev answered_in_sequence : Agent
answered_in_sequence = (migrate_start sequential_net client archive_path plain (local, agent)).1.1

accepted_in_parallel :
    (migrate_start parallel_net client archive_path plain (local, agent)).0 ≡ ok tt
unfolding migrate_start agent_net strip_text serve migrate update_async impl_update_async
    Parallel.update_async init_update init_upload_options to_query upload_options open_file strip
    wrapped ◌>>=◌ recover
accepted_in_parallel = refl

accepted_in_sequence :
    (migrate_start sequential_net client archive_path plain (local, agent)).0 ≡ ok tt
unfolding migrate_start agent_net strip_text serve migrate update_async impl_update_async
    Sequential.update_async init_update init_upload_options to_query upload_options open_file strip
    wrapped ◌>>=◌ recover stop acquire remove_all migrate_by_remove_first
accepted_in_sequence = refl

parallel_wait_early_example :
    ((wait parallel_net client (elapsed (λ a. a) ∷ []) answered).0 ≡ ended (ok tt))
    × Moved root data_at calm data_at
        (wait parallel_net client (elapsed (λ a. a) ∷ []) answered).1.world
    × ((go : M (Unit {0})) × ((wait parallel_net client
            (elapsed (λ a. a) ∷ [])
            answered).1.goroutines
          ≡ go ∷ []))
unfolding init_upload_options strip
parallel_wait_early_example =
    parallel_wait_early parallel_updater downloader archive metrics format client agent plain
      archive_bytes lawful refl refl refl archive_path 1 local [] refl accepted_in_parallel

-- The goroutine runs between the first poll and the second.
abbrev polls : List (Wake Agent)
polls =
    works sequential_updater downloader archive metrics format client agent plain archive_bytes
      (false ∷ true ∷ [])

ends_in_sequence : (wait sequential_net client polls answered_in_sequence).0 ≡ ended (ok tt)
unfolding wait migrate_status run_next migrate_start agent_net strip_text serve migrate update_async
    impl_update_async Sequential.update_async Sequential.update_in_background init_update
    init_upload_options to_query upload_options open_file strip wrapped ◌>>=◌ recover deferred stop
    start new_server_command acquire finish rename remove_all migrate_by_remove_first run_migration
    state get_version lower_eq
ends_in_sequence = refl

sequential_wait_example :
    Installed root unarchiver
      (no_compression ∷ [])
      (Given (whole archive_bytes))
      (wait sequential_net client polls answered_in_sequence).1.world
unfolding init_upload_options strip
sequential_wait_example =
    sequential_wait sequential_updater downloader archive metrics format client agent plain
      archive_bytes lawful refl refl refl archive_path 1 local (false ∷ true ∷ []) refl
      accepted_in_sequence ends_in_sequence
