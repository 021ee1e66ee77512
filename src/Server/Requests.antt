-- ===== src/Server/Requests.antt =====
-- internal/server: what requests come to.
use photon_container.Base.{
  ◌≡◌, ◌≢◌, refl, sym, subst, ◌⊎◌, String, Bool, true, false, none, some, List, [], ◌∷◌, ◌++◌,
  str_eq, arith, eq_iff, if◌then◌else◌,
}
use photon_container.Os.Files.{Reader}
use photon_container.Photondata.Archive.{Archive}
use photon_container.Photondata.Layout.{data_at}
use photon_container.Photondata.Migrator.{state, reset_state}
use photon_container.Photondata.Replacement.{Carried}
use photon_container.Photondata.Types.{unknown, migrated}
use photon_container.Server.Handlers.{Values, get, Answer, upload_options, uploaded, migrate, serve}
use photon_container.Unarchiver.Options.{UnarchiveOption, no_compression}
use photon_container.Updater.AsyncRuns.{Given, parallel_update_async}
use photon_container.Updater.Dependencies.{IsLawful, Downloader}
use photon_container.Updater.Entry.{Updater, update_async, in_parallel, impl_update_async}
use photon_container.Updater.Options.{
  init_options, get_unarchive_options, with_force_update, with_unarchive_options,
}
use photon_container.Updater.Parallel
use photon_container.Updater.Parallel.{ParallelUpdater}
use photon_container.Updater.ParallelRuns.{Updated, Stopped}
use photon_container.World.{World, Method, M, Result, ignored, ◌>>◌}
use photon_container.World.Rules.{Ensures}

-- What reading the state may change: an unknown state becomes migrated.
abbrev pub Observed : World → World → Type 0
Observed w v =
    (v.files ≡ w.files)
    × (v.photon ≡ w.photon)
    × (v.migrator.data_dir ≡ w.migrator.data_dir)
    × ((v.migrator.state ≡ w.migrator.state)
        ⊎ ((w.migrator.state ≡ unknown) × (v.migrator.state ≡ migrated)))

abbrev pub is_safe : Method → Bool
is_safe Method.get = true
is_safe Method.head = true
is_safe Method.post = false
is_safe Method.delete = false
is_safe Method.put = false
is_safe Method.other = false

-- A request by GET or HEAD, to any path but /metrics, starts no goroutine, and changes nothing but
-- what reading the state may change: files, server and directory stay, and the state does, or it
-- was unknown and becomes migrated.
pub safe_requests :
    (u : Updater) (archive : Archive) (metrics : World → Answer × World) (method : Method)
    (path : String) (query : Values) (body : Reader) (w : World)
    → is_safe method ≡ true
    → path ≢ "/metrics"
    → ((serve u archive metrics method path query body w).0.1 ≡ none)
      × Observed w (serve u archive metrics method path query body w).1
unfolding serve state
safe_requests u archive metrics Method.get path query body w s h =
    ground (arith, eq_iff path "/metrics")
safe_requests u archive metrics Method.head path query body w s h =
    ground (arith, eq_iff path "/metrics")
safe_requests u archive metrics Method.post path query body w s h = ground (arith, s)
safe_requests u archive metrics Method.delete path query body w s h = ground (arith, s)
safe_requests u archive metrics Method.put path query body w s h = ground (arith, s)
safe_requests u archive metrics Method.other path query body w s h = ground (arith, s)

unforced_with :
    (force plain : Bool)
    → force ≡ false
    → (init_options (
        (if force then with_force_update ∷ [] else [])
        ++ (if plain then with_unarchive_options (no_compression ∷ []) ∷ [] else []))).force
      ≡ false
unfolding init_options
unforced_with false true h = refl
unforced_with false false h = refl
unforced_with true plain h = ground (arith, h)

pub upload_options-force :
    (query : Values)
    → get query "force" ≢ "true"
    → (init_options (upload_options query)).force ≡ false
unfolding upload_options
upload_options-force query h =
    unforced_with (str_eq (get query "force") "true") (str_eq (get query "no_compression") "true")
      (ground (arith, eq_iff (get query "force") "true", h))

module _ (p : ParallelUpdater) (query : Values) (body : Reader) (w : World) where
  abbrev pub flags : List UnarchiveOption
  flags = get_unarchive_options (init_options (upload_options query))

  abbrev Kept : World → Type 0
  Kept v = Carried p.photon_data_dir data_at w data_at v

  -- The response of an upload is 500 and no goroutine runs, or it is 200 and a goroutine does the
  -- rest; the database and the services are as they were in both cases.
  abbrev pub Uploaded : Answer × World → Type 0
  Uploaded ((resp, none), v) = (resp.status ≡ 500) × Kept v
  Uploaded ((resp, some go), v) =
      (resp.status ≡ 200)
      × Kept v
      × Ensures (Updated p w flags (Given body)) (λ _. Stopped p w flags (Given body)) (go v)

  uploaded-Uploaded :
      (u : Updater) (archive : Archive) (r : Result (M (Unit {0}))) (v : World)
      → Ensures
          (λ go x.
            Kept x
            × Ensures (Updated p w flags (Given body)) (λ _. Stopped p w flags (Given body)) (go x))
          (λ _. Kept)
          (r, v)
      → Uploaded (uploaded u archive r, v)
  uploaded-Uploaded u archive (photon_container.World.ok go) v h = (refl, h.at.0, h.at.1)
  uploaded-Uploaded u archive (photon_container.World.err e) v h = (refl, h.at)

  -- An upload that is not forced, to an agent with the parallel strategy, lawful dependencies and a
  -- migrator over the same directory. The response is 500, and no goroutine runs; or it is 200, and
  -- a goroutine does. When the response is sent the services and the database are as they were in
  -- both cases. The goroutine, run from there, ends without an error as a whole update does, on the
  -- body and with the unarchive options of the query, or with an error as a failed restart does.
  pub parallel_upload :
      (dl : Downloader) (archive : Archive)
      → IsLawful p.photon_data_dir p.downloader p.unarchiver
      → w.migrator.data_dir ≡ p.photon_data_dir ++ data_at
      → get query "force" ≢ "true"
      → Uploaded
          (migrate (record { updater_impl = in_parallel p; downloader = dl }) archive query body w)
  unfolding migrate update_async impl_update_async
  parallel_upload dl archive laws placed free =
      subst
        (λ force. Uploaded (
          let (r, v) =
            (if force
                then (do ignored reset_state; Parallel.update_async p body (upload_options query))
                else Parallel.update_async p body (upload_options query))
              w in
          (uploaded (record { updater_impl = in_parallel p; downloader = dl }) archive r, v)))
        (sym (upload_options-force query free))
        (uploaded-Uploaded (record { updater_impl = in_parallel p; downloader = dl }) archive
          (Parallel.update_async p body (upload_options query) w).0
          (Parallel.update_async p body (upload_options query) w).1
          (parallel_update_async p w (upload_options query) laws placed body))
