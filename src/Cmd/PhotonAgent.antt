-- ===== src/Cmd/PhotonAgent.antt =====
-- cmd/photon-agent/main.go. The flags are a record; `humanize.ParseBytes`, `url.Parse`, MD5, the
-- decoders of archives and the reading of a path are parameters, and so is what `ListenAndServe`
-- does until it returns.
use photon_container.Base.{
  ℕ, String, Bool, not, Option, none, some, List, [], ◌∷◌, ◌++◌, str_eq, if◌then◌else◌,
}
use photon_container.Downloader.Download.{downloader}
use photon_container.Downloader.Options.{
  Downloader, DownloaderOption, with_read_speed_limit, with_download_speed_limit,
  new as new_downloader,
}
use photon_container.Logging.Middleware.{AccessLogMiddleware, new_access_log_middleware}
use photon_container.Logging.Setup.{Logger, stdout, stderr, configure}
use photon_container.Metrics.Latest.{new_latest_photon_data_metrics}
use photon_container.Os.Files.{FilePath, Bytes, join}
use photon_container.Photon.Server.{start}
use photon_container.Photon.Types.{PhotonServer, new_photon_server, with_args}
use photon_container.Photondata.Archive.{Archive, ParsedUrl, new_archive}
use photon_container.Photondata.Types.{Migrator, new_migrator}
use photon_container.Unarchiver.Extract.{Codec}
use photon_container.Unarchiver.Options.{
  Unarchiver, UnarchiverOption, new_unarchiver, with_unarchive_limit_bytes_per_sec,
}
use photon_container.Updater.Entry.{Updater, new}
use photon_container.Updater.Options.{new_update_strategy}
use photon_container.Updater.Wired.{unarchiver}
use photon_container.World.{World, M, Error, Result, ok, err, failed, wrap, wrapped, ◌>>◌}

-- The flags.
pub record Settings : Type 0 where
  pub log_level : String
  pub log_format : String
  pub database_url : String
  pub listen_ip : String
  pub default_language : String
  pub update_strategy : String
  pub download_speed_limit : String
  pub io_speed_limit : String
  pub photon_jar_path : String
  pub photon_dir : String
  pub disable_metrics : Bool

-- The parts of the agent, made and not started.
pub record Parts : Type 0 where
  pub archive : Archive
  pub download_settings : Downloader
  pub unarchive_settings : Unarchiver
  pub photon_server : PhotonServer
  pub migrator : Migrator
  pub updater : Updater
  pub access_log : AccessLogMiddleware
  pub with_metrics : Bool

module _ (parse_bytes : String → Option ℕ) where
  abbrev parsed_limit : Option ℕ → Result ℕ
  parsed_limit none = err (failed "parse")
  parsed_limit (some n) = ok n

  -- `parseSpeedLimit`
  unfoldable pub parse_speed_limit : String → Result ℕ
  parse_speed_limit s = if str_eq s "" then ok 0 else parsed_limit (parse_bytes s)

  abbrev pub limit_of : String → Result ℕ → Result (Option ℕ)
  limit_of text (ok n) = ok (some n)
  limit_of text (err e) = err (wrap text e)

  -- A flag that is empty sets no limit.
  unfoldable pub flag_limit : String → String → Result (Option ℕ)
  flag_limit text s = if not (str_eq s "") then limit_of text (parse_speed_limit s) else ok none

abbrev pub read_limit : Option ℕ → List DownloaderOption
read_limit none = []
read_limit (some n) = with_read_speed_limit (some n) ∷ []

abbrev pub unarchive_limit : Option ℕ → List UnarchiverOption
unarchive_limit none = []
unarchive_limit (some n) = with_unarchive_limit_bytes_per_sec (some n) ∷ []

abbrev pub download_limit : Option ℕ → List DownloaderOption
download_limit none = []
download_limit (some n) = with_download_speed_limit (some n) ∷ []

module _ (parse_bytes : String → Option ℕ) (parse_url : String → Option ParsedUrl)
    (to_path : String → FilePath) (md5 : Bytes → Bytes) (codec : Codec) (cfg : Settings) where
  -- `photonDataDir`
  abbrev pub photon_data_dir : FilePath
  photon_data_dir = join (to_path cfg.photon_dir) ("photon_data" ∷ [])

  abbrev pub agent_server : PhotonServer
  agent_server = new_photon_server cfg.photon_jar_path cfg.photon_dir (
      with_args ("-listen-ip" ∷ cfg.listen_ip ∷ "-default-language" ∷ cfg.default_language ∷ [])
      ∷ [])

  abbrev pub with_updater : Logger → Archive → Option ℕ → Option ℕ → Option Updater → Result Parts
  with_updater logger archive io down none =
      err (wrap "failed to initialize updater" (failed "strategy"))
  with_updater logger archive io down (some u) = ok (record {
    archive = archive;
    download_settings = new_downloader (read_limit io ++ download_limit down);
    unarchive_settings = new_unarchiver (unarchive_limit io);
    photon_server = agent_server;
    migrator = new_migrator photon_data_dir [];
    updater = u;
    access_log = new_access_log_middleware logger;
    with_metrics = not cfg.disable_metrics;
  })

  abbrev pub with_archive : Logger → Option ℕ → Option ℕ → Option Archive → Result Parts
  with_archive logger io down none = err (wrap "invalid archive" (failed "parse"))
  with_archive logger io down (some archive) = with_updater logger archive io down (
      new (new_update_strategy cfg.update_strategy) (downloader md5) (unarchiver codec)
        photon_data_dir)

  abbrev pub with_download : Logger → Option ℕ → Result (Option ℕ) → Result Parts
  with_download logger io (err e) = err e
  with_download logger io (ok down) =
      with_archive logger io down (new_archive parse_url cfg.database_url [])

  abbrev pub with_io : Logger → Result (Option ℕ) → Result Parts
  with_io logger (err e) = err e
  with_io logger (ok io) =
      with_download logger io
        (flag_limit parse_bytes "failed to parse download speed limit" cfg.download_speed_limit)

  abbrev pub with_access_logger : Result Logger → Result Parts
  with_access_logger (err e) = err (wrap "failed to setup access logger" e)
  with_access_logger (ok logger) =
      with_io logger (flag_limit parse_bytes "failed to parse I/O speed limit" cfg.io_speed_limit)

  -- The head of `innerMain`, down to the updater.
  unfoldable pub prepare : Result Parts
  prepare = with_access_logger (configure "info" cfg.log_format stdout)

-- What `ListenAndServe` returns.
pub data Listened : Type 0 where
  server_closed : Listened
  listen_error : Error → Listened

abbrev pub listened : Listened → World → Result (Unit {0}) × World
listened server_closed w = (ok tt, w)
listened (listen_error e) w = (err (wrap "failed to start server" e), w)

-- The parts in their initial states, among the files.
abbrev pub installed : Parts → World → World
installed parts w = record w { photon = parts.photon_server; migrator = parts.migrator }

-- The metrics of the latest database ask for its time when they are made; what their goroutine does
-- later it does while requests are served.
abbrev pub measured : Parts → World → World
measured parts w =
    if parts.with_metrics
    then (new_latest_photon_data_metrics parts.updater.downloader parts.archive [] [] w).1
    else w

module _ (listen : Parts → World → Listened × World) where
  abbrev pub serve_with : Parts → M (Unit {0})
  serve_with parts w = let (r, v) = listen parts w in listened r v

  -- `innerMain`, of what its head has come to: Photon is started, and then requests are served.
  unfoldable pub inner_main : Result Parts → M (Unit {0})
  inner_main (err e) w = (err e, w)
  inner_main (ok parts) w =
      (do wrapped "failed to start Photon server" start; serve_with parts)
        (measured parts (installed parts w))

-- How the program ends.
pub data Exit : Type 0 where
  exited_with : ℕ → Exit

abbrev pub exit_of : Result (Unit {0}) × World → Exit × World
exit_of (ok _, w) = (exited_with 0, w)
exit_of (err _, w) = (exited_with 1, w)

abbrev pub main_with : Result Logger → M (Unit {0}) → World → Exit × World
main_with (err _) inner w = (exited_with 1, w)
main_with (ok _) inner w = exit_of (inner w)

-- `main`, of the flags and of `innerMain`.
unfoldable pub main : Settings → M (Unit {0}) → World → Exit × World
main cfg inner w = main_with (configure cfg.log_level cfg.log_format stderr) inner w
