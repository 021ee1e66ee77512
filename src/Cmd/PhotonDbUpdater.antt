-- ===== src/Cmd/PhotonDbUpdater.antt =====
-- cmd/photon-db-updater/main.go. The flags are a record; `time.ParseDuration`,
-- `humanize.ParseBytes`, `url.Parse` and MD5 are parameters, and so is what the HTTP client of the
-- agent's requests does. The signals that end the program are seen where it waits.
use photon_container.Base.{
  ℕ, String, Bool, Option, none, some, List, [], ◌∷◌, ◌++◌, not, str_eq, if◌then◌else◌,
}
use photon_container.Base.Time.{ℤ}
use photon_container.Client.Options.{
  with_progress_interval as upload_interval, UploadOption, with_force_upload,
  with_no_compressed_archive,
}
use photon_container.Client.Requests.{
  Net, Client, Sides, MigrateStatusResponse, new_client, migrate_start, migrate_status,
}
use photon_container.Downloader.Download.{download}
use photon_container.Downloader.Options.{
  with_progress_interval as download_interval, new as new_downloader, Downloader, DownloaderOption,
  with_download_speed_limit,
}
use photon_container.Os.Files.{FilePath, Bytes}
use photon_container.Photondata.Archive.{Archive, ArchiveOption, ParsedUrl, new_archive}
use photon_container.World.{World, Result, ok, err, failed, wrap}

-- The flags. An `archive` of "" is none.
pub record Settings : Type 0 where
  pub database_url : String
  pub archive_path : Option FilePath
  pub archive_download_path : FilePath
  pub download_only : Bool
  pub wait_until_done : Bool
  pub no_complessed : Bool
  pub force : Bool
  pub photon_agent_url : String
  pub progress_interval : String
  pub download_speed_limit : String

-- `getEnv`, over `os.Getenv`.
unfoldable pub get_env : (String → String) → String → String → String
get_env env key default = if str_eq (env key) "" then default else env key

pub record Options : Type 0 where
  pub archive : List ArchiveOption
  pub download : List DownloaderOption
  pub upload : List UploadOption

module _ (parse_bytes : String → Option ℕ) (cfg : Settings) (interval : ℤ) where
  abbrev pub upload_flags : List UploadOption
  upload_flags =
      (if cfg.force then with_force_upload ∷ [] else [])
      ++ (if cfg.no_complessed then with_no_compressed_archive ∷ [] else [])

  abbrev pub with_limit : List DownloaderOption → Options
  with_limit limits = record {
    archive = [];
    download = download_interval interval ∷ limits;
    upload = upload_interval interval ∷ upload_flags;
  }

  abbrev pub limited : Option ℕ → Result Options
  limited none = err (wrap "failed to parse download speed limit" (failed "parse"))
  limited (some n) = ok (with_limit (with_download_speed_limit (some n) ∷ []))

  -- `initOptions`
  unfoldable pub init_options : Result Options
  init_options =
      if not (str_eq cfg.download_speed_limit "")
      then limited (parse_bytes cfg.download_speed_limit)
      else ok (with_limit [])

-- What the program has made of its flags before it does anything.
pub record Prepared : Type 0 where
  pub archive : Archive
  pub downloader : Downloader
  pub client : Client
  pub upload : List UploadOption

module _ (parse_duration : String → Option ℤ) (parse_bytes : String → Option ℕ)
    (parse_url : String → Option ParsedUrl) (cfg : Settings) where
  abbrev pub with_archive : Options → Option Archive → Result Prepared
  with_archive o none = err (wrap "invalid archive" (failed "parse"))
  with_archive o (some a) = ok (record {
    archive = a;
    downloader = new_downloader o.download;
    client = new_client cfg.photon_agent_url;
    upload = o.upload;
  })

  abbrev pub with_options : Result Options → Result Prepared
  with_options (err e) = err e
  with_options (ok o) = with_archive o (new_archive parse_url cfg.database_url o.archive)

  abbrev pub with_interval : Option ℤ → Result Prepared
  with_interval none = err (wrap "failed to parse progress interval" (failed "parse"))
  with_interval (some interval) = with_options (init_options parse_bytes cfg interval)

  -- The head of `innerMain`, down to the construction of the client.
  unfoldable pub prepare : Result Prepared
  prepare = with_interval (parse_duration cfg.progress_interval)

-- How the program stands: it waits still, it has panicked, or it is back from `innerMain`.
pub data Ended : Type 0 where
  still_waiting panicked : Ended
  ended : Result (Unit {0}) → Ended

-- What wakes the wait: a signal, or the timer, with what the other side has done until then.
pub data Wake (S : Type 0) : Type 0 where
  signalled : Wake S
  elapsed : (S → S) → Wake S

module _ {S : Type 0} (net : Net S) (c : Client) where
  abbrev pub polled : (S → Ended × S) → Result (Option MigrateStatusResponse) → S → Ended × S
  polled more (err e) t = (ended (err e), t)
  polled more (ok none) t = (panicked, t)
  polled more (ok (some r)) t =
      let rest = more t in if str_eq r.state "migrated" then (ended (ok tt), t) else rest

  -- The loop at the end of `innerMain`, over what wakes it.
  unfoldable pub wait : List (Wake S) → S → Ended × S
  wait [] s = (still_waiting, s)
  wait (signalled ∷ rest) s = (ended (err (failed "context canceled")), s)
  wait (elapsed f ∷ rest) s = let (r, t) = migrate_status net c (f s) in polled (wait rest) r t

module _ {S : Type 0} (net : Net S) (md5 : Bytes → Bytes) (cfg : Settings)
    (wakes : List (Wake S)) where
  abbrev pub waited : Client → World → S → Ended × Sides S
  waited c w s = let (e, t) = wait net c wakes s in (e, (w, t))

  abbrev pub started : Client → Result (Unit {0}) × Sides S → Ended × Sides S
  started c (err e, sides) = (ended (err e), sides)
  started c (ok _, (w, s)) = if cfg.wait_until_done then waited c w s else (ended (ok tt), (w, s))

  abbrev pub fetched : Prepared → FilePath → Result (Unit {0}) → World → S → Ended × Sides S
  fetched p path (err e) w s = (ended (err e), (w, s))
  fetched p path (ok _) w s =
      if cfg.download_only
      then (ended (ok tt), (w, s))
      else started p.client (migrate_start net p.client path p.upload (w, s))

  abbrev pub from_archive : Prepared → Option FilePath → World → S → Ended × Sides S
  from_archive p (some path) w s = fetched p path (ok tt) w s
  from_archive p none w s =
      let (r, v) = download md5 p.archive cfg.archive_download_path w in
      fetched p cfg.archive_download_path r v s

  abbrev pub run_prepared : Result Prepared → Sides S → Ended × Sides S
  run_prepared (err e) sides = (ended (err e), sides)
  run_prepared (ok p) (w, s) = from_archive p cfg.archive_path w s

  -- `innerMain`
  unfoldable pub inner_main :
      (String → Option ℤ)
      → (String → Option ℕ)
      → (String → Option ParsedUrl)
      → Sides S
      → Ended × Sides S
  inner_main parse_duration parse_bytes parse_url sides =
      run_prepared (prepare parse_duration parse_bytes parse_url cfg) sides
