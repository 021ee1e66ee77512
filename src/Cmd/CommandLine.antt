-- ===== src/Cmd/CommandLine.antt =====
-- The heads of `main` of cmd/photon-agent/main.go and cmd/photon-db-updater/main.go: the flags, with
-- their defaults from the environment. The arguments are the pairs of a flag and its value that
-- Go's flag package finds on the command line.
use photon_container.Base.{
  String, Bool, true, false, ℕ, ◌||◌, Option, none, some, List, [], ◌∷◌, str_eq, if◌then◌else◌,
}
use photon_container.Cmd.PhotonAgent.{Settings}
use photon_container.Cmd.PhotonDbUpdater.{
  Settings as DbUpdaterSettings, get_env, Ended, still_waiting, panicked, ended,
}
use photon_container.Logging.Setup.{Logger, configure, stderr}
use photon_container.Os.Files.{FilePath}
use photon_container.World.{Result, ok, err}

-- `photondata.DefaultDatabaseURL`
abbrev pub default_database_url : String
default_database_url =
    "https://download1.graphhopper.com/public/photon-db-planet-1.0-latest.tar.bz2"

abbrev pub Arguments : Type 0
Arguments = List (String × String)

-- `flag.StringVar`: the last of its values, or the default.
abbrev pub string_var : Arguments → String → String → String
string_var [] name default = default
string_var ((n, v) ∷ rest) name default =
    string_var rest name (if str_eq n name then v else default)

-- `strconv.ParseBool`
abbrev pub parse_bool : String → Option Bool
parse_bool v =
    if str_eq v "1"
      || str_eq v "t"
      || str_eq v "T"
      || str_eq v "true"
      || str_eq v "TRUE"
      || str_eq v "True"
    then some true
    else if str_eq v "0"
        || str_eq v "f"
        || str_eq v "F"
        || str_eq v "false"
        || str_eq v "FALSE"
        || str_eq v "False"
    then some false
    else none

abbrev parsed_after : Option Bool → String → Option Bool
parsed_after none v = none
parsed_after (some _) v = parse_bool v

-- `flag.BoolVar`: none where a value is no Boolean, with which the program ends.
abbrev pub bool_var : Arguments → String → Option Bool → Option Bool
bool_var [] name value = value
bool_var ((n, v) ∷ rest) name value =
    bool_var rest name (if str_eq n name then parsed_after value v else value)

module _ (env : String → String) (args : Arguments) where
  -- A flag with its variable of the environment.
  abbrev pub env_var : String → String → String → String
  env_var name variable default = string_var args name (get_env env variable default)

  abbrev pub with_disable_metrics : Option Bool → Option Settings
  with_disable_metrics none = none
  with_disable_metrics (some disabled) = some (record {
    log_level = env_var "log-level" "PHOTON_AGENT_LOG_LEVEL" "info";
    log_format = env_var "log-format" "PHOTON_AGENT_LOG_FORMAT" "json";
    database_url = env_var "database-url" "PHOTON_AGENT_DATABASE_URL" default_database_url;
    listen_ip = env_var "photon-listen-ip" "PHOTON_AGENT_PHOTON_LISTEN_IP" "127.0.0.1";
    default_language =
        env_var "photon-default-language" "PHOTON_AGENT_PHOTON_DEFAULT_LANGUAGE" "en";
    update_strategy = env_var "update-strategy" "PHOTON_AGENT_UPDATE_STRATEGY" "sequential";
    download_speed_limit = env_var "download-speed-limit" "PHOTON_AGENT_DOWNLOAD_SPEED_LIMIT" "";
    io_speed_limit = env_var "io-speed-limit" "PHOTON_AGENT_IO_SPEED_LIMIT" "";
    photon_jar_path = env_var "photon-jar-path" "PHOTON_AGENT_PHOTON_JAR_PATH" "/photon/photon.jar";
    photon_dir = env_var "photon-dir" "PHOTON_AGENT_PHOTON_DIR" "/photon";
    disable_metrics = disabled;
  })

  -- The head of the agent's `main`, but for the port.
  unfoldable pub agent_settings : Option Settings
  agent_settings = with_disable_metrics (bool_var args "disable-metrics" (some false))

module _ (env : String → String) (args : Arguments) (to_path : String → FilePath) where
  -- A Boolean flag of the updater: of its variable only "true" is true.
  abbrev bool_env_var : String → String → Option Bool
  bool_env_var name variable =
      bool_var args name (some (str_eq (get_env env variable "false") "true"))

  abbrev archive_of : String → Option FilePath
  archive_of path = if str_eq path "" then none else some (to_path path)

  abbrev with_booleans :
      Option Bool → Option Bool → Option Bool → Option Bool → Option DbUpdaterSettings
  with_booleans (some only) (some wait) (some plain) (some force) = some (record {
    database_url = env_var env args "database-url" "PHOTON_AGENT_DATABASE_URL" default_database_url;
    archive_path = archive_of (env_var env args "archive" "PHOTON_UPDATER_ARCHIVE" "");
    archive_download_path =
        to_path
          (env_var env args "download-to" "PHOTON_UPDATER_DOWNLOAD_TO" "/tmp/photon-db.tar.bz2");
    download_only = only;
    wait_until_done = wait;
    no_complessed = plain;
    force = force;
    photon_agent_url =
        env_var env args "photon-agent-url" "PHOTON_AGENT_URL" "http://localhost:8080";
    progress_interval =
        env_var env args "progress-interval" "PHOTON_UPDATER_PROGRESS_INTERVAL" "1m";
    download_speed_limit =
        env_var env args "download-speed-limit" "PHOTON_UPDATER_DOWNLOAD_SPEED_LIMIT" "";
  })
  with_booleans _ _ _ _ = none

  -- The head of the updater's `main`.
  unfoldable pub db_updater_settings : Option DbUpdaterSettings
  db_updater_settings =
      with_booleans (bool_env_var "download-only" "PHOTON_UPDATER_DOWNLOAD_ONLY")
        (bool_env_var "wait" "PHOTON_UPDATER_WAIT")
        (bool_env_var "no-compressed" "PHOTON_UPDATER_NO_COMPRESSED")
        (bool_env_var "force" "PHOTON_UPDATER_FORCE")

  -- The status that the updater ends with, of what `innerMain` comes to: none if it waits still.
  abbrev pub exit_status : Ended → Option ℕ
  exit_status still_waiting = none
  exit_status panicked = some 2
  exit_status (ended (ok _)) = some 0
  exit_status (ended (err _)) = some 1

  abbrev main_after :
      Result Logger → (DbUpdaterSettings → Ended) → Option DbUpdaterSettings → Option ℕ
  main_after _ inner none = some 2
  main_after (err _) inner (some cfg) = some 1
  main_after (ok _) inner (some cfg) = exit_status (inner cfg)

  -- The updater's `main`, of its `innerMain`.
  unfoldable pub db_updater_main : (DbUpdaterSettings → Ended) → Option ℕ
  unfolding db_updater_settings
  db_updater_main inner =
      main_after
        (configure (env_var env args "log-level" "PHOTON_AGENT_LOG_LEVEL" "info")
          (env_var env args "log-format" "PHOTON_AGENT_LOG_FORMAT" "json") stderr)
        inner db_updater_settings
