-- ===== src/Examples/Commands.antt =====
-- The two programs of cmd at concrete flags.
use photon_container.Base.{
  ◌≡◌, refl, ◌*◌, ℕ, Bool, true, false, String, Option, none, some, [], ◌∷◌, ◌++◌, str_eq,
  if◌then◌else◌,
}
use photon_container.Base.Time.{ℤ, pos, second, ltb_ℤ}
use photon_container.Client.Options.{
  init_upload_options, to_query, with_progress_interval, with_force_upload,
}
use photon_container.Client.Requests.{Net, new_client, no_response}
use photon_container.Cmd.AgentRuns.{requested, agent_download}
use photon_container.Cmd.CommandLine.{agent_settings, db_updater_settings}
use photon_container.Cmd.Variables.{set_variables, agent_variables, agent_settings-set_variables}
use photon_container.Cmd.Flags.{flags-upload}
use photon_container.Cmd.PhotonAgent
use photon_container.Cmd.PhotonAgent.{
  Parts, Listened, server_closed, photon_data_dir, agent_server, flag_limit, parse_speed_limit,
}
use photon_container.Cmd.PhotonDbUpdater
use photon_container.Downloader.Options.{with_progress_interval as download_interval}
use photon_container.Cmd.PhotonDbUpdater.{Prepared, init_options, ended, get_env}
use photon_container.Cmd.Wiring.{prepared}
use photon_container.Downloader.Options.{with_read_speed_limit, new as new_downloader}
use photon_container.Examples.{env, world}
use photon_container.Cmd.Serving.{Served, main_serves}
use photon_container.Logging.Middleware.{new_access_log_middleware}
use photon_container.Logging.Setup.{
  Logger, json, stderr, info, warn, configure, parse_level, new_handler,
}
use photon_container.Downloader.Download.{get_last_modified}
use photon_container.Metrics.{update_last_modified_time}
use photon_container.Metrics.Latest.{new_latest_photon_data_metrics, refresh_loop}
use photon_container.Os.Files.{FilePath, Bytes, Reader}
use photon_container.Photon.Server.{start}
use photon_container.Photon.Types.{exited, new_photon_server, new_server_command}
use photon_container.Photondata.Archive.{ParsedUrl, new_archive}
use photon_container.Photondata.Types.{migrated, new_migrator}
use photon_container.Server.Handlers.{Values, Answer, answer, empty, upload_options, serve}
use photon_container.Unarchiver.Extract.{Codec}
use photon_container.Unarchiver.Options.{new_unarchiver, with_unarchive_limit_bytes_per_sec}
use photon_container.Updater.Entry.{new}
use photon_container.Updater.Options.{
  init_options as init_update, get_unarchive_options, new_update_strategy,
}
use photon_container.Updater.WiredRuns.{wired, UpdatedTo}
use photon_container.World.{World, M, Method, ok, wrapped, ◌>>=◌}
use photon_container.World.Rules.{Ensures}

abbrev calm : World
calm = world (env [] (exited 143)) migrated

abbrev parse_duration : String → Option ℤ
parse_duration _ = some (pos (2 * second))

abbrev parse_bytes : String → Option ℕ
parse_bytes _ = some 10_000_000

abbrev parse_url : String → Option ParsedUrl
parse_url _ = some (record {
  scheme = "http";
  user = none;
  host = "localhost";
  path = "" ∷ "public" ∷ "db.tar.bz2" ∷ [];
  escaped_path = "/public/db.tar.bz2";
  raw_query = none;
  fragment = none;
})

abbrev flags : PhotonDbUpdater.Settings
flags = record {
  database_url = "http://localhost/public/db.tar.bz2";
  archive_path = none;
  archive_download_path = "tmp" ∷ "photon-db.tar.bz2" ∷ [];
  download_only = true;
  wait_until_done = true;
  no_complessed = false;
  force = true;
  photon_agent_url = "http://localhost:8080";
  progress_interval = "2s";
  download_speed_limit = "";
}

abbrev md5 : Bytes → Bytes
md5 b = b

-- A network that answers nothing.
abbrev silent : Net ℕ
silent _ s = (no_response, s)

abbrev sent : Prepared
sent = record {
  archive = record { base_url = "http://localhost/public"; archive_name = "db.tar.bz2" };
  downloader = new_downloader (download_interval (pos (2 * second)) ∷ []);
  client = new_client "http://localhost:8080";
  upload = with_progress_interval (pos (2 * second)) ∷ with_force_upload ∷ [];
}

flags_prepared : PhotonDbUpdater.prepare parse_duration parse_bytes parse_url flags ≡ ok sent
unfolding PhotonDbUpdater.prepare init_options new_archive
flags_prepared = refl

flags-upload_example :
    ((init_update (upload_options (to_query (init_upload_options sent.upload)))).force ≡ true)
    × (get_unarchive_options
          (init_update (upload_options (to_query (init_upload_options sent.upload))))
        ≡ [])
    × (ltb_ℤ (init_upload_options sent.upload).progress_interval (5 * second) ≡ false)
flags-upload_example = flags-upload flags parse_duration parse_bytes parse_url sent flags_prepared

abbrev to_path : String → FilePath
to_path s = s ∷ []

abbrev codec : Codec
codec = record { bunzip2 = λ r. r; untar = λ _. record { entries = []; broken = false } }

abbrev agent_flags : PhotonAgent.Settings
agent_flags = record {
  log_level = "warn";
  log_format = "json";
  database_url = "http://localhost/public/db.tar.bz2";
  listen_ip = "127.0.0.1";
  default_language = "en";
  update_strategy = "parallel";
  download_speed_limit = "";
  io_speed_limit = "10MB";
  photon_jar_path = "photon.jar";
  photon_dir = "photon";
  disable_metrics = false;
}

abbrev metrics : World → Answer × World
metrics w = (answer 200 empty, w)

abbrev program_logger : Logger
program_logger = record {
  format = json;
  out = stderr;
  options = record { level = warn; add_source = false };
}

abbrev dir : FilePath
dir = photon_data_dir parse_bytes parse_url to_path md5 codec agent_flags

-- It is meant for the standard output.
abbrev access_logger : Logger
access_logger = record {
  format = json;
  out = stderr;
  options = record { level = info; add_source = false };
}

abbrev agent_parts : Parts
agent_parts = record {
  archive = record { base_url = "http://localhost/public"; archive_name = "db.tar.bz2" };
  download_settings = new_downloader (with_read_speed_limit (some 10_000_000) ∷ []);
  unarchive_settings = new_unarchiver (with_unarchive_limit_bytes_per_sec (some 10_000_000) ∷ []);
  photon_server = agent_server parse_bytes parse_url to_path md5 codec agent_flags;
  migrator = new_migrator dir [];
  updater = wired md5 codec dir true;
  access_log = new_access_log_middleware access_logger;
  with_metrics = true;
}

-- The world in which the goroutine of a request runs.
abbrev moved : World
moved = record calm { migrator = agent_parts.migrator }

agent_prepared : prepared parse_bytes parse_url to_path md5 codec agent_flags ≡ ok agent_parts
unfolding PhotonAgent.prepare flag_limit parse_speed_limit new_archive new new_update_strategy
    configure parse_level new_handler
agent_prepared = refl

abbrev query : Values
query = ("archive", "de.tar.bz2") ∷ []

abbrev no_body : Reader
no_body = record { content = []; broken = false }

agent_download_example :
    (let (ans, v) =
        serve agent_parts.updater agent_parts.archive metrics Method.post "/migrate/download" query
          no_body calm in
      (ans.0.status ≡ 200)
      × (v ≡ calm)
      × ((go : M (Unit {0})) × (ans.1 ≡ some go)
          × Ensures
              (λ _. UpdatedTo md5 codec dir (requested agent_parts.archive query) moved.env)
              (λ _ _. Unit {0})
              (go moved)))
agent_download_example =
    agent_download parse_bytes parse_url to_path md5 codec agent_flags metrics agent_parts
      agent_prepared query no_body calm moved refl (λ _ _. refl)

abbrev listen : Parts → World → Listened × World
listen _ w = (server_closed, w)

main_serves_example : Served listen agent_parts calm (
  ok tt,
  (PhotonAgent.main agent_flags
      (PhotonAgent.inner_main listen (prepared parse_bytes parse_url to_path md5 codec agent_flags))
      calm).1,
)
unfolding PhotonAgent.prepare PhotonAgent.main PhotonAgent.inner_main flag_limit parse_speed_limit
    new_archive new new_update_strategy start wrapped ◌>>=◌ new_server_command new_photon_server
    configure parse_level new_handler new_latest_photon_data_metrics refresh_loop
    update_last_modified_time get_last_modified
main_serves_example =
    main_serves parse_bytes parse_url to_path md5 codec agent_flags listen agent_parts
      agent_prepared calm refl

-- The variables of a shell in which one is set.
abbrev one_variable : String → String → String → String
one_variable name value asked = if str_eq asked name then value else ""

abbrev waits : Option PhotonDbUpdater.Settings → Option Bool
waits none = none
waits (some cfg) = some cfg.wait_until_done

-- As an argument "1" is true, and as a variable it is not.
wait_by_variable :
    (waits (db_updater_settings (one_variable "PHOTON_UPDATER_WAIT" "true") [] (λ _. []))
      ≡ some true)
    × (waits (db_updater_settings (one_variable "PHOTON_UPDATER_WAIT" "1") [] (λ _. []))
        ≡ some false)
    × (waits (db_updater_settings (λ _. "") (("wait", "1") ∷ []) (λ _. [])) ≡ some true)
    × (waits (db_updater_settings (λ _. "") (("wait", "yes") ∷ []) (λ _. [])) ≡ none)
unfolding db_updater_settings get_env
wait_by_variable = (refl, refl, refl, refl)

agent_settings-set_variables_example :
    agent_settings
      (one_variable "PHOTON_AGENT_UPDATE_STRATEGY" "parallel")
      (("photon-dir", "/data") ∷ [])
    ≡ agent_settings
        (λ _. "")
        (set_variables (one_variable "PHOTON_AGENT_UPDATE_STRATEGY" "parallel") agent_variables
          ++ ("photon-dir", "/data") ∷ [])
agent_settings-set_variables_example =
    agent_settings-set_variables (one_variable "PHOTON_AGENT_UPDATE_STRATEGY" "parallel")
      (("photon-dir", "/data") ∷ [])
