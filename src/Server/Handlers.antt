-- ===== src/Server/Handlers.antt =====
-- internal/server/server.go and migration_handler.go. A goroutine that a handler starts is returned
-- beside the response, and runs after it. The handler of /metrics is a parameter.
use photon_container.Base.{
  ℕ, String, not, Option, none, some, List, [], ◌∷◌, ◌++◌, str_eq, if◌then◌else◌,
}
use photon_container.Base.Time.{Time}
use photon_container.Os.Files.{Reader}
use photon_container.Photondata.Archive.{Archive}
use photon_container.Photondata.Migrator.{state, reset_state}
use photon_container.Photondata.Types.{state_text}
use photon_container.Unarchiver.Options.{no_compression}
use photon_container.Updater.Entry.{Updater, download_and_update, update_async}
use photon_container.Updater.Options.{
  UpdateOption, with_archive_name, with_force_update, with_unarchive_options,
}
use photon_container.World.{World, M, Result, Method}

-- `url.Values`, of keys that have one value each.
abbrev pub Values : Type 0
Values = List (String × String)

-- `Values.Get`
abbrev pub get : Values → String → String
get [] key = ""
get ((k, v) ∷ rest) key = let other = get rest key in if str_eq k key then v else other

-- A body: nothing, a text, or the JSON object of a status, before its encoding.
pub data Body : Type 0 where
  empty : Body
  text : String → Body
  status_object : (state : String) (version : Time) → Body

pub record Response : Type 0 where
  pub status : ℕ
  pub body : Body

-- A response and the goroutine that the handler has started.
abbrev pub Answer : Type 0
Answer = Response × Option (M (Unit {0}))

abbrev pub answer : ℕ → Body → Answer
answer code b = (record { status = code; body = b }, none)

abbrev started : Body
started = text "migration started. Check logs if you want to know the progress"

-- `MigrateStatusHandler.get`
abbrev pub status_get : World → Answer × World
status_get w =
    let ((s, version), v) = state w in (answer 200 (status_object (state_text s) version), v)

-- `MigrateStatusHandler.delete`
abbrev pub status_delete : World → Answer × World
status_delete w = (answer 200 empty, (reset_state w).1)

-- The options of `LocalMigrateHandler.ServeHTTP`.
unfoldable pub download_options : Values → List UpdateOption
download_options query =
    (if not (str_eq (get query "archive") "")
      then with_archive_name (get query "archive") ∷ []
      else [])
    ++ (if str_eq (get query "force") "true" then with_force_update ∷ [] else [])

-- The options of `MigrateHandler.ServeHTTP`.
unfoldable pub upload_options : Values → List UpdateOption
upload_options query =
    (if str_eq (get query "force") "true" then with_force_update ∷ [] else [])
    ++ (if str_eq (get query "no_compression") "true"
        then with_unarchive_options (no_compression ∷ []) ∷ []
        else [])

module _ (u : Updater) (archive : Archive) where
  -- `LocalMigrateHandler.ServeHTTP`
  unfoldable pub local_migrate : Values → World → Answer × World
  local_migrate query w = (
    (
      record { status = 200; body = started },
      some (download_and_update u archive (download_options query)),
    ),
    w,
  )

  abbrev pub uploaded : Result (M (Unit {0})) → Answer
  uploaded (photon_container.World.ok go) = (record { status = 200; body = started }, some go)
  uploaded (photon_container.World.err _) = answer 500 empty

  -- `MigrateHandler.ServeHTTP`
  unfoldable pub migrate : Values → Reader → World → Answer × World
  migrate query body w =
      let (r, v) = update_async u body (upload_options query) w in (uploaded r, v)

  module _ (metrics : World → Answer × World) where
    not_allowed : World → Answer × World
    not_allowed w = (answer 405 empty, w)

    -- A pattern of GET is one of HEAD too.
    on_get : Method → (World → Answer × World) → World → Answer × World
    on_get Method.get h = h
    on_get Method.head h = h
    on_get Method.post h = not_allowed
    on_get Method.delete h = not_allowed
    on_get Method.put h = not_allowed
    on_get Method.other h = not_allowed

    on_status : Method → World → Answer × World
    on_status Method.get = status_get
    on_status Method.head = status_get
    on_status Method.delete = status_delete
    on_status Method.post = not_allowed
    on_status Method.put = not_allowed
    on_status Method.other = not_allowed

    on_post : Method → (World → Answer × World) → World → Answer × World
    on_post Method.post h = h
    on_post Method.get h = not_allowed
    on_post Method.head h = not_allowed
    on_post Method.delete h = not_allowed
    on_post Method.put h = not_allowed
    on_post Method.other h = not_allowed

    -- `APIServer.ServeHTTP`, of a clean path as its text.
    unfoldable pub serve : Method → String → Values → Reader → World → Answer × World
    unfolding on_get on_post on_status not_allowed local_migrate migrate
    serve method path query body =
        if str_eq path "/healthz"
        then on_get method (λ w. (answer 200 empty, w))
        else if str_eq path "/metrics"
        then on_get method metrics
        else if str_eq path "/migrate/status"
        then on_status method
        else if str_eq path "/migrate/download"
        then on_post method (local_migrate query)
        else if str_eq path "/migrate/upload"
        then on_post method (migrate query body)
        else λ w. (answer 404 empty, w)
