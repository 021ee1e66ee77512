-- ===== src/Cmd/Serving.antt =====
-- cmd/photon-agent/main.go: the agent serves beside a Photon that it has started.
use photon_container.Base.{
  ◌≡◌, refl, sym, subst, ap, ◌∙◌, ℕ, String, Bool, true, false, Option, none, some, inl, inr,
  Bool-cases, ◌==◌, arith,
}
use photon_container.Cmd.PhotonAgent.{
  Settings, Parts, agent_server, installed, measured, inner_main, Listened, listened, serve_with,
}
use photon_container.Cmd.Wiring.{FitsAll, prepared, prepare-Fits}
use photon_container.Photon.Rules.{SameData}
use photon_container.Photon.Server.{start}
use photon_container.Base.Time.{Time}
use photon_container.Downloader.Download.{downloader, get_last_modified, read_modified, modified}
use photon_container.Metrics.{update_last_modified_time}
use photon_container.Metrics.Latest.{new_latest_photon_data_metrics, refresh_loop}
use photon_container.Updater.Dependencies.{Downloader}
use photon_container.Updater.Entry.{Updater}
use photon_container.Updater.WiredRuns.{wired}
use photon_container.Os.Files.{FilePath, Bytes}
use photon_container.Photon.Types.{PhotonServer, is_serving, new_server_command, new_photon_server}
use photon_container.Photondata.Archive.{Archive, ParsedUrl, url}
use photon_container.Unarchiver.Extract.{Codec}
use photon_container.World.{
  World, M, Method, Reply, bad_url, unreachable, reply, tick, Result, ok, err, wrapped, ◌>>=◌,
}
use photon_container.World.Rules.{Ensures, Ensures-wrapped}
use photon_container.Cmd.PhotonAgent.{main, main_with, exit_of, exited_with}
use photon_container.Logging.Setup.{Logger, stderr, configure}

-- Photon has never been started.
start_fresh :
    (w : World)
    → w.photon.photon_server ≡ none
    → Ensures (λ _ v. SameData w v × (is_serving v.photon ≡ true)) (λ _ _. Unit {0}) (start w)
unfolding start new_server_command
start_fresh w h = ground (arith, h)

get_last_modified-tick : (a : Archive) (w : World) → (get_last_modified a w).1 ≡ tick w
unfolding get_last_modified ◌>>=◌
get_last_modified-tick a w = answered (w.env.fetch w.now Method.head (url a)) (tick w)
  where
    stated : (o : Option Time) (v : World) → (modified o v).1 ≡ v
    stated none v = refl
    stated (some t) v = refl

    answered : (r : Reply) (v : World) → (read_modified r v).1 ≡ v
    answered bad_url v = refl
    answered unreachable v = refl
    answered (reply status b o) v = elim (Bool-cases (status == 200)) [
      | inl e ↦ rw e (stated o v)
      | inr e ↦ rw e refl
    ]

wired-downloader :
    (md5 : Bytes → Bytes) (codec : Codec) (dir : FilePath) (b : Bool)
    → (wired md5 codec dir b).downloader ≡ downloader md5
wired-downloader md5 codec dir true = refl
wired-downloader md5 codec dir false = refl

-- Asking for the time of the latest database leaves the files and the services alone.
abbrev Kept : World → World → Type 0
Kept w v = (v.files ≡ w.files) × (v.migrator ≡ w.migrator) × (v.photon ≡ w.photon)

measured-Kept :
    (md5 : Bytes → Bytes) (parts : Parts) (w : World)
    → parts.updater.downloader ≡ downloader md5
    → Kept w (measured parts w)
unfolding new_latest_photon_data_metrics refresh_loop update_last_modified_time
measured-Kept md5 parts w e = elim (Bool-cases parts.with_metrics) [
  | inl on ↦ rw on (
      subst (λ (dl : Downloader). Kept w (dl.get_last_modified parts.archive w).1) (sym e)
        (subst (Kept w) (sym (get_last_modified-tick parts.archive w)) (refl, refl, refl)))
  | inr off ↦ rw off (refl, refl, refl)
]

abbrev pub listening :
    (Parts → World → Listened × World) → Parts → World → Result (Unit {0}) × World
listening listen parts v = let (r, x) = listen parts v in listened r x

-- What the last step of `innerMain` is called in.
abbrev pub Served :
    (Parts → World → Listened × World) → Parts → World → Result (Unit {0}) × World → Type 0
Served listen parts w r =
    (v : World) × (is_serving v.photon ≡ true)
    × (v.files ≡ w.files)
    × (v.migrator ≡ parts.migrator)
    × (r ≡ listening listen parts v)

module _ (parse_bytes : String → Option ℕ) (parse_url : String → Option ParsedUrl)
    (to_path : String → FilePath) (md5 : Bytes → Bytes) (codec : Codec) (cfg : Settings)
    (listen : Parts → World → Listened × World) where
  then_listen :
      (parts : Parts) (w z : World) (r : Result (Unit {0})) (v : World)
      → Kept (installed parts w) z
      → Ensures (λ _ x. SameData z x × (is_serving x.photon ≡ true)) (λ _ _. Unit {0}) (r, v)
      → (((λ _. (r, v)) >>= (λ _. serve_with listen parts)) w).0 ≡ ok tt
      → Served listen parts w (((λ _. (r, v)) >>= (λ _. serve_with listen parts)) w)
  unfolding ◌>>=◌
  then_listen parts w z (ok _) v k h e =
      (v, h.at.1, h.at.0.files ∙ k.0, h.at.0.migrator ∙ k.1, refl)
  then_listen parts w z (err _) v k h e = absurd (ground (arith, e))

  fresh :
      (parts : Parts)
      → parts.photon_server.photon_server
        ≡ (agent_server parse_bytes parse_url to_path md5 codec cfg).photon_server
      → parts.photon_server.photon_server ≡ none
  unfolding new_photon_server
  fresh parts h = h

  inner_main_serves :
      (parts : Parts)
      → prepared parse_bytes parse_url to_path md5 codec cfg ≡ ok parts
      → (w : World)
      → (inner_main listen (prepared parse_bytes parse_url to_path md5 codec cfg) w).0 ≡ ok tt
      → Served listen parts w
          (inner_main listen (prepared parse_bytes parse_url to_path md5 codec cfg) w)
  unfolding inner_main ◌>>=◌
  inner_main_serves parts made w =
      let fits =
        subst (FitsAll parse_bytes parse_url to_path md5 codec cfg) made
          (prepare-Fits parse_bytes parse_url to_path md5 codec cfg) in
      let begun = measured parts (installed parts w) in
      let starting = wrapped "failed to start Photon server" start begun in
      let kept =
        measured-Kept md5 parts (installed parts w)
          (ap (λ (u : Updater). u.downloader) fits.0 ∙ wired-downloader md5 codec _ _) in
      subst (λ r. (inner_main listen r w).0 ≡ ok tt → Served listen parts w (inner_main listen r w))
        (sym made)
        (then_listen parts w begun starting.0 starting.1 kept (
          Ensures-wrapped _ _ begun (
            start_fresh begun (
              ap (λ (p : PhotonServer). p.photon_server) kept.2
              ∙ fresh parts (ap (λ (p : PhotonServer). p.photon_server) fits.2)))))

  exit_ok :
      (p : Result (Unit {0}) × World) → (exit_of p).0 ≡ exited_with 0 → p ≡ (ok tt, (exit_of p).1)
  exit_ok (ok _, w) h = refl
  exit_ok (err e, w) h = absurd (ground (arith, h))

  main_ok :
      (c : Result Logger) (inner : M (Unit {0})) (w : World)
      → (main_with c inner w).0 ≡ exited_with 0
      → inner w ≡ (ok tt, (main_with c inner w).1)
  main_ok (ok l) inner w h = exit_ok (inner w) h
  main_ok (err e) inner w h = absurd (ground (arith, h))

  -- The agent serves requests only beside a Photon that serves: if the program exits with 0, then
  -- Photon was started first, without an error, and `ListenAndServe` came to its end without one in
  -- a world in which the process serves, over the files as they were and the migrator that was made
  -- of the flags.
  pub main_serves :
      (parts : Parts)
      → prepared parse_bytes parse_url to_path md5 codec cfg ≡ ok parts
      → (w : World)
      → (main cfg (inner_main listen (prepared parse_bytes parse_url to_path md5 codec cfg)) w).0
        ≡ exited_with 0
      → Served listen parts w (
        ok tt,
        (main cfg (inner_main listen (prepared parse_bytes parse_url to_path md5 codec cfg)) w).1,
      )
  unfolding main
  main_serves parts made w h =
      let done =
        main_ok (configure cfg.log_level cfg.log_format stderr)
          (inner_main listen (prepared parse_bytes parse_url to_path md5 codec cfg)) w h in
      subst (Served listen parts w) done (inner_main_serves parts made w (ap (λ r. r.0) done))
