-- ===== src/Cmd/AgentRuns.antt =====
-- cmd/photon-agent/main.go: what the agent does once its parts are made.
use photon_container.Base.{
  ◌≡◌, refl, sym, subst, ap, ◌∙◌, ℕ, String, Bool, true, false, Option, some, [], ◌∷◌, ◌++◌, not,
  str_eq, if◌then◌else◌,
}
use photon_container.Cmd.PhotonAgent.{Settings, Parts, photon_data_dir}
use photon_container.Cmd.Wiring.{Fits, FitsAll, prepared, prepare-Fits}
use photon_container.Os.Files.{FilePath, Bytes, Reader}
use photon_container.Photondata.Archive.{Archive, ParsedUrl, from_archive_name}
use photon_container.Photondata.Types.{Migrator, new_migrator}
use photon_container.Server.Handlers.{Values, get, Answer, serve, download_options}
use photon_container.Unarchiver.Extract.{Codec}
use photon_container.Updater.Entry.{Updater, download_and_update}
use photon_container.Updater.Options.{
  init_options, get_archive, with_archive_name, with_force_update,
}
use photon_container.Updater.WiredRuns.{
  wired, UpdatedTo, HasPlainNames, download_and_update_installs,
}
use photon_container.World.{World, M, Method, ok}
use photon_container.World.Rules.{Ensures}

-- The archive that a request for a download comes to.
abbrev pub requested : Archive → Values → Archive
requested a query =
    if str_eq (get query "force") "true"
    then a
    else if str_eq (get query "archive") ""
    then a
    else from_archive_name a (get query "archive")

chosen_by :
    (unnamed force : Bool) (name : String) (a : Archive)
    → str_eq name "" ≡ unnamed
    → (let o = init_options (
          (if not unnamed then with_archive_name name ∷ [] else [])
          ++ (if force then with_force_update ∷ [] else [])) in
        ◌≡◌ {A = Archive}
          (if o.force then a else get_archive o a)
          (if force then a else if unnamed then a else from_archive_name a name))
unfolding init_options get_archive
chosen_by true true name a h = refl
chosen_by true false name a h = refl
chosen_by false true name a h = refl
chosen_by false false name a h = rw h refl

chosen-requested :
    (a : Archive) (query : Values)
    → (if (init_options (download_options query)).force
        then a
        else get_archive (init_options (download_options query)) a)
      ≡ requested a query
unfolding download_options
chosen-requested a query =
    chosen_by (str_eq (get query "archive") "") (str_eq (get query "force") "true")
      (get query "archive") a refl

module _ (parse_bytes : String → Option ℕ) (parse_url : String → Option ParsedUrl)
    (to_path : String → FilePath) (md5 : Bytes → Bytes) (codec : Codec) (cfg : Settings)
    (metrics : World → Answer × World) where
  abbrev data_dir : FilePath
  data_dir = photon_data_dir parse_bytes parse_url to_path md5 codec cfg

  Fits-update :
      (parts : Parts)
      → Fits parse_bytes parse_url to_path md5 codec cfg parts
      → (query : Values) (w : World) → w.migrator.data_dir ≡ parts.migrator.data_dir
      → HasPlainNames md5 codec data_dir (requested parts.archive query) w.env
      → Ensures
          (λ _. UpdatedTo md5 codec data_dir (requested parts.archive query) w.env)
          (λ _ _. Unit {0})
          (download_and_update parts.updater parts.archive (download_options query) w)
  unfolding new_migrator
  Fits-update parts fits query w same plain =
      subst
        (λ (u : Updater).
          Ensures (λ _. UpdatedTo md5 codec data_dir (requested parts.archive query) w.env)
            (λ _ _. Unit {0}) (download_and_update u parts.archive (download_options query) w))
        (sym fits.0)
        (subst
          (λ (x : Archive).
            HasPlainNames md5 codec data_dir x w.env
            → Ensures (λ _. UpdatedTo md5 codec data_dir x w.env) (λ _ _. Unit {0})
                (download_and_update
                  (wired md5 codec data_dir (str_eq cfg.update_strategy "parallel")) parts.archive
                  (download_options query) w))
          (chosen-requested parts.archive query)
          (λ p.
            download_and_update_installs md5 codec data_dir (str_eq cfg.update_strategy "parallel")
              w.env parts.archive (download_options query) w p
              (same ∙ ap (λ (m : Migrator). m.data_dir) fits.1, refl))
          plain)

  -- POST /migrate/download to the agent as its command makes it, whatever its flags are: the
  -- response is 200 with a goroutine, and the world is untouched. The goroutine, run in any world
  -- whose migrator has the agent's directory, reports no error only if the state is migrated, the
  -- database in place was unarchived from a download of the archive that the query asks for (of the
  -- default one if it asks for none, or with force), from the servers of that world, and a process
  -- serves, or a signal had killed the last one. The condition on the data: no archive with an MD5
  -- sum that these servers state for its URL has a name with ".." in it.
  pub agent_download :
      (parts : Parts)
      → prepared parse_bytes parse_url to_path md5 codec cfg ≡ ok parts
      → (query : Values) (body : Reader) (w x : World)
      → x.migrator.data_dir ≡ parts.migrator.data_dir
      → HasPlainNames md5 codec data_dir (requested parts.archive query) x.env
      → (let (ans, v) =
            serve parts.updater parts.archive metrics Method.post "/migrate/download" query body
              w in
          (ans.0.status ≡ 200)
          × (v ≡ w)
          × ((go : M (Unit {0})) × (ans.1 ≡ some go)
              × Ensures
                  (λ _. UpdatedTo md5 codec data_dir (requested parts.archive query) x.env)
                  (λ _ _. Unit {0})
                  (go x)))
  unfolding serve
  agent_download parts made query body w x same plain = (
    refl,
    refl,
    (
      download_and_update parts.updater parts.archive (download_options query),
      refl,
      Fits-update parts
          (subst (FitsAll parse_bytes parse_url to_path md5 codec cfg) made
            (prepare-Fits parse_bytes parse_url to_path md5 codec cfg))
          query x same plain,
    ),
  )
