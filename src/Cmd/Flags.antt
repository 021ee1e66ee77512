-- ===== src/Cmd/Flags.antt =====
-- cmd/photon-db-updater/main.go: what its flags come to.
use photon_container.Base.{
  ◌≡◌, refl, subst, ap, ◌∙◌, String, Bool, true, false, Option, none, some, List, [], ◌∷◌, ◌++◌,
  ◌*◌, arith, str_eq, if◌then◌else◌, ℕ, Bool-cases, inl, inr,
}
use photon_container.Base.Time.{ℤ, pos, negsuc, second, ltb_ℤ}
use photon_container.Client.Options.{
  UploadOptions, init_upload_options, to_query, with_progress_interval, with_force_upload,
  with_no_compressed_archive, upload_options-to_query,
}
use photon_container.Cmd.PhotonDbUpdater.{
  Settings, Prepared, Options, Ended, ended, Wake, init_options, prepare, inner_main, fetched,
  from_archive, run_prepared, limited, with_archive, with_options, with_interval,
}
use photon_container.Downloader.Download.{download}
use photon_container.Client.Requests.{Net, Sides}
use photon_container.Os.Files.{Bytes, FilePath}
use photon_container.Photondata.Archive.{Archive, ParsedUrl, new_archive}
use photon_container.Server.Handlers.{upload_options}
use photon_container.Unarchiver.Options.{no_compression}
use photon_container.Updater.Options.{init_options as init_update, get_unarchive_options}
use photon_container.World.{World, Result, ok, err}

module _ (cfg : Settings) where
  -- What the upload is to be.
  abbrev AsSet : UploadOptions → Type 0
  AsSet o =
      (o.force_update ≡ cfg.force)
      × (o.no_complession ≡ cfg.no_complessed)
      × (ltb_ℤ o.progress_interval (5 * second) ≡ false)

  at_least :
      (i : ℤ) → ltb_ℤ (if ltb_ℤ i (5 * second) then pos (5 * second) else i) (5 * second) ≡ false
  at_least (pos n) = ground arith
  at_least (negsuc n) = ground arith

  set_by :
      (i : ℤ) (force plain : Bool)
      → (let o = init_upload_options (
            with_progress_interval i
            ∷ ((if force then with_force_upload ∷ [] else [])
                ++ (if plain then with_no_compressed_archive ∷ [] else []))) in
          (o.force_update ≡ force)
          × (o.no_complession ≡ plain)
          × (ltb_ℤ o.progress_interval (5 * second) ≡ false))
  unfolding init_upload_options
  set_by i true true = (refl, refl, at_least i)
  set_by i true false = (refl, refl, at_least i)
  set_by i false true = (refl, refl, at_least i)
  set_by i false false = (refl, refl, at_least i)

  module _ (parse_duration : String → Option ℤ) (parse_bytes : String → Option ℕ)
      (parse_url : String → Option ParsedUrl) where
    abbrev SetOptions : Result Options → Type 0
    SetOptions (err _) = Unit {0}
    SetOptions (ok o) = AsSet (init_upload_options o.upload)

    abbrev SetPrepared : Result Prepared → Type 0
    SetPrepared (err _) = Unit {0}
    SetPrepared (ok p) = AsSet (init_upload_options p.upload)

    limited-set : (i : ℤ) (n : Option ℕ) → SetOptions (limited parse_bytes cfg i n)
    limited-set i none = tt
    limited-set i (some n) = set_by i cfg.force cfg.no_complessed

    init_options-set : (i : ℤ) → SetOptions (init_options parse_bytes cfg i)
    unfolding init_options
    init_options-set i = elim (Bool-cases (str_eq cfg.download_speed_limit "")) [
      | inl unset ↦ rw unset (set_by i cfg.force cfg.no_complessed)
      | inr limit ↦ rw limit (limited-set i (parse_bytes cfg.download_speed_limit))
    ]

    with_archive-set :
        (o : Options) (a : Option Archive)
        → AsSet (init_upload_options o.upload)
        → SetPrepared (with_archive parse_duration parse_bytes parse_url cfg o a)
    with_archive-set o none h = tt
    with_archive-set o (some a) h = h

    with_options-set :
        (r : Result Options)
        → SetOptions r
        → SetPrepared (with_options parse_duration parse_bytes parse_url cfg r)
    with_options-set (err e) h = tt
    with_options-set (ok o) h =
        with_archive-set o (new_archive parse_url cfg.database_url o.archive) h

    with_interval-set :
        (i : Option ℤ) → SetPrepared (with_interval parse_duration parse_bytes parse_url cfg i)
    with_interval-set none = tt
    with_interval-set (some i) =
        with_options-set (init_options parse_bytes cfg i) (init_options-set i)

    prepare-set : SetPrepared (prepare parse_duration parse_bytes parse_url cfg)
    unfolding prepare
    prepare-set = with_interval-set (parse_duration cfg.progress_interval)

    -- The flags reach the agent: of the query of an upload that the program prepares, the agent
    -- makes an update that is forced exactly if `-force` is set, of an archive that is not
    -- compressed exactly if `-no-compressed` is; and the progress of the upload is logged at most
    -- every five seconds.
    pub flags-upload :
        (p : Prepared)
        → prepare parse_duration parse_bytes parse_url cfg ≡ ok p
        → (let query = to_query (init_upload_options p.upload) in
            ((init_update (upload_options query)).force ≡ cfg.force)
            × (get_unarchive_options (init_update (upload_options query))
                ≡ (if cfg.no_complessed then no_compression ∷ [] else []))
            × (ltb_ℤ (init_upload_options p.upload).progress_interval (5 * second) ≡ false))
    flags-upload p h =
        let set = subst SetPrepared h prepare-set in
        let read = upload_options-to_query (init_upload_options p.upload) in
        (
          read.0 ∙ set.0,
          read.1 ∙ ap (λ (b : Bool). if b then no_compression ∷ [] else []) set.1,
          set.2,
        )

module _ {S : Type 0} (net : Net S) (md5 : Bytes → Bytes) (cfg : Settings) (wakes : List (Wake S))
    (only : cfg.download_only ≡ true) where
  abbrev Alone : S → Ended × Sides S → Type 0
  Alone s (e, (v, t)) = (t ≡ s) × ((r : Result (Unit {0})) × (e ≡ ended r))

  fetched-Alone :
      (p : Prepared) (path : FilePath) (r : Result (Unit {0})) (v : World) (s : S)
      → Alone s (fetched net md5 cfg wakes p path r v s)
  fetched-Alone p path (err e) v s = (refl, (err e, refl))
  fetched-Alone p path (ok _) v s = rw only (refl, (ok tt, refl))

  from_archive-Alone :
      (p : Prepared) (path : Option FilePath) (w : World) (s : S)
      → Alone s (from_archive net md5 cfg wakes p path w s)
  from_archive-Alone p (some path) w s = fetched-Alone p path (ok tt) w s
  from_archive-Alone p none w s =
      fetched-Alone p cfg.archive_download_path
        (download md5 p.archive cfg.archive_download_path w).0
        (download md5 p.archive cfg.archive_download_path w).1 s

  run_prepared-Alone :
      (r : Result Prepared) (w : World) (s : S) → Alone s (run_prepared net md5 cfg wakes r (w, s))
  run_prepared-Alone (err e) w s = (refl, (err e, refl))
  run_prepared-Alone (ok p) w s = from_archive-Alone p cfg.archive_path w s

  -- With `-download-only` the agent is sent nothing, whatever the other flags and the downloads
  -- come to, and the program ends without waiting.
  pub inner_main-download_only :
      (parse_duration : String → Option ℤ) (parse_bytes : String → Option ℕ)
      (parse_url : String → Option ParsedUrl) (w : World) (s : S)
      → (let (e, (_, t)) =
            inner_main net md5 cfg wakes parse_duration parse_bytes parse_url (w, s) in
          (t ≡ s) × ((r : Result (Unit {0})) × (e ≡ ended r)))
  unfolding inner_main
  inner_main-download_only parse_duration parse_bytes parse_url w s =
      run_prepared-Alone (prepare parse_duration parse_bytes parse_url cfg) w s
