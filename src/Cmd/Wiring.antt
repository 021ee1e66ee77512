-- ===== src/Cmd/Wiring.antt =====
-- cmd/photon-agent/main.go: what its head makes of the flags, and what the agent then does.
use photon_container.Base.{
  ◌≡◌, refl, sym, subst, ap, ◌∙◌, ◌⊎◌, inl, inr, ℕ, String, true, false, arith, Option, none, some,
  [], str_eq, eq_iff, Bool-cases,
}
use photon_container.Cmd.PhotonAgent.{
  Settings, Parts, prepare, photon_data_dir, agent_server, with_updater, with_archive,
  with_download, with_io, with_access_logger, flag_limit, parse_speed_limit,
}
use photon_container.Downloader.Download.{downloader}
use photon_container.Logging.Setup.{
  Logger, stdout, stderr, configure, new_handler, parse_level, with_handler, Format, HandlerOptions,
  info,
}
use photon_container.Os.Files.{FilePath, Bytes}
use photon_container.Photondata.Archive.{Archive, ParsedUrl, new_archive}
use photon_container.Photondata.Types.{new_migrator}
use photon_container.Unarchiver.Extract.{Codec}
use photon_container.Updater.Entry.{Updater, new}
use photon_container.Updater.Options.{new_update_strategy}
use photon_container.Updater.Wired.{unarchiver}
use photon_container.Updater.WiredRuns.{wired}
use photon_container.World.{Result, ok, err}

-- The strategy of the flags.
new-wired :
    (md5 : Bytes → Bytes) (codec : Codec) (dir : FilePath) (s : String)
    → new (new_update_strategy s) (downloader md5) (unarchiver codec) dir
      ≡ some (wired md5 codec dir (str_eq s "parallel"))
unfolding new new_update_strategy
new-wired md5 codec dir s = elim (Bool-cases (str_eq s "sequential")) [
  | inl e ↦ rw ((eq_iff s "sequential").0 e) refl
  | inr e ↦ elim (Bool-cases (str_eq s "parallel")) [
    | inl f ↦ rw e (rw f refl)
    | inr f ↦ rw e (rw f refl)
  ]
]

new_handler-ok :
    (format : String) (o p : HandlerOptions) (l : Logger)
    → new_handler format o ≡ ok l
    → (m : Logger) × (new_handler format p ≡ ok m)
unfolding new_handler
new_handler-ok format o p l h = elim (Bool-cases (str_eq format "json")) [
  | inl e ↦ (record { format = Format.json; out = stderr; options = p }, rw e refl)
  | inr e ↦ elim (Bool-cases (str_eq format "text")) [
    | inl f ↦ (record { format = Format.text; out = stderr; options = p }, rw e (rw f refl))
    | inr f ↦ absurd (ground (arith, h, e, f))
  ]
]

with_handler-ok :
    (format : String) (o : Option HandlerOptions) (p : HandlerOptions) (l : Logger)
    → with_handler format o ≡ ok l
    → (m : Logger) × (new_handler format p ≡ ok m)
with_handler-ok format none p l h = absurd (ground (arith, h))
with_handler-ok format (some o) p l h = new_handler-ok format o p l h

-- What `Configure` accepts for the log of the program it accepts for the access log.
access_log-ok :
    (level format : String) (l : Logger)
    → configure level format stderr ≡ ok l
    → (m : Logger) × (configure "info" format stdout ≡ ok m)
unfolding configure parse_level
access_log-ok level format l h =
    with_handler-ok format (parse_level level) (record { level = info; add_source = false }) l h

module _ (parse_bytes : String → Option ℕ) (parse_url : String → Option ParsedUrl)
    (to_path : String → FilePath) (md5 : Bytes → Bytes) (codec : Codec) (cfg : Settings) where
  abbrev dir : FilePath
  dir = photon_data_dir parse_bytes parse_url to_path md5 codec cfg

  abbrev pub prepared : Result Parts
  prepared = prepare parse_bytes parse_url to_path md5 codec cfg

  -- The parts fit together: one directory, the strategy of the flag, the program's own downloader
  -- and unarchiver.
  abbrev pub Fits : Parts → Type 0
  Fits parts =
      (parts.updater ≡ wired md5 codec dir (str_eq cfg.update_strategy "parallel"))
      × (parts.migrator ≡ new_migrator dir [])
      × (parts.photon_server ≡ agent_server parse_bytes parse_url to_path md5 codec cfg)

  abbrev pub FitsAll : Result Parts → Type 0
  FitsAll (err _) = Unit {0}
  FitsAll (ok parts) = Fits parts

  with_archive-Fits :
      (logger : Logger) (io down : Option ℕ) (a : Option Archive)
      → FitsAll (with_archive parse_bytes parse_url to_path md5 codec cfg logger io down a)
  with_archive-Fits logger io down none = tt
  with_archive-Fits logger io down (some a) =
      subst
        (λ u. FitsAll (with_updater parse_bytes parse_url to_path md5 codec cfg logger a io down u))
        (sym (new-wired md5 codec dir cfg.update_strategy)) (refl, refl, refl)

  with_download-Fits :
      (logger : Logger) (io : Option ℕ) (r : Result (Option ℕ))
      → FitsAll (with_download parse_bytes parse_url to_path md5 codec cfg logger io r)
  with_download-Fits logger io (err e) = tt
  with_download-Fits logger io (ok down) =
      with_archive-Fits logger io down (new_archive parse_url cfg.database_url [])

  with_io-Fits :
      (logger : Logger) (r : Result (Option ℕ))
      → FitsAll (with_io parse_bytes parse_url to_path md5 codec cfg logger r)
  with_io-Fits logger (err e) = tt
  with_io-Fits logger (ok io) =
      with_download-Fits logger io
        (flag_limit parse_bytes "failed to parse download speed limit" cfg.download_speed_limit)

  with_access_logger-Fits :
      (r : Result Logger)
      → FitsAll (with_access_logger parse_bytes parse_url to_path md5 codec cfg r)
  with_access_logger-Fits (err e) = tt
  with_access_logger-Fits (ok logger) =
      with_io-Fits logger
        (flag_limit parse_bytes "failed to parse I/O speed limit" cfg.io_speed_limit)

  pub prepare-Fits : FitsAll prepared
  unfolding prepare
  prepare-Fits = with_access_logger-Fits (configure "info" cfg.log_format stdout)

  -- A limit that is not set, or one that can be parsed.
  abbrev Parses : String → Type 0
  Parses s = (str_eq s "" ≡ true) ⊎ ((n : ℕ) × (parse_bytes s ≡ some n))

  flag_limit-ok :
      (text s : String) → Parses s → (n : Option ℕ) × (flag_limit parse_bytes text s ≡ ok n)
  unfolding flag_limit parse_speed_limit
  flag_limit-ok text s (inl empty) = (none, rw empty refl)
  flag_limit-ok text s (inr (n, e)) = elim (Bool-cases (str_eq s "")) [
    | inl empty ↦ (none, rw empty refl)
    | inr full ↦ (some n, rw full (rw e refl))
  ]

  made_by :
      (logger : Logger) (a : Archive) (io down : Option ℕ) (u : Updater)
      → (parts : Parts) × (with_updater parse_bytes parse_url to_path md5 codec cfg logger a io down
            (some u)
          ≡ ok parts)
        × (parts.archive ≡ a)
  made_by logger a io down u = (_, refl, refl)

  -- The head comes to an error only by its inputs: if each limit that is set can be parsed, and the
  -- URL can, and the loggers of the program could be set up, the parts are made, whatever text
  -- names the strategy.
  pub prepare_succeeds :
      (a : Archive) (l : Logger)
      → configure cfg.log_level cfg.log_format stderr ≡ ok l
      → Parses cfg.io_speed_limit
      → Parses cfg.download_speed_limit
      → new_archive parse_url cfg.database_url [] ≡ some a
      → (parts : Parts) × (prepared ≡ ok parts) × (parts.archive ≡ a)
  unfolding prepare
  prepare_succeeds a l set_up io down parsed =
      let (logger, g) = access_log-ok cfg.log_level cfg.log_format l set_up in
      let (n, e) = flag_limit-ok "failed to parse I/O speed limit" cfg.io_speed_limit io in
      let (m, f) =
        flag_limit-ok "failed to parse download speed limit" cfg.download_speed_limit down in
      let (parts, made, from) =
        made_by logger a n m (wired md5 codec dir (str_eq cfg.update_strategy "parallel")) in
      (
        parts,
        ap (with_access_logger parse_bytes parse_url to_path md5 codec cfg) g
            ∙ ap (with_io parse_bytes parse_url to_path md5 codec cfg logger) e
            ∙ (ap (with_download parse_bytes parse_url to_path md5 codec cfg logger n) f
                ∙ (ap (with_archive parse_bytes parse_url to_path md5 codec cfg logger n m) parsed
                    ∙ (ap (with_updater parse_bytes parse_url to_path md5 codec cfg logger a n m)
                          (new-wired md5 codec dir cfg.update_strategy)
                        ∙ made))),
        from,
      )
