-- ===== src/Client/Options.antt =====
-- internal/client/photonagent/options.go: the query of an upload, and what the agent makes of it.
use photon_container.Base.{◌≡◌, Bool, true, false, List, [], ◌∷◌, ◌++◌, ◌*◌, if◌then◌else◌, refl}
use photon_container.Base.Time.{ℤ, pos, second, ltb_ℤ}
use photon_container.Server.Handlers.{Values, upload_options}
use photon_container.Unarchiver.Options.{no_compression}
use photon_container.Updater.Options.{init_options, get_unarchive_options}

pub record UploadOptions : Type 0 where
  pub no_complession : Bool
  pub force_update : Bool
  pub progress_interval : ℤ

abbrev pub UploadOption : Type 0
UploadOption = UploadOptions → UploadOptions

-- `WithNoCompressedArchive`
abbrev pub with_no_compressed_archive : UploadOption
with_no_compressed_archive o = record o { no_complession = true }

-- `WithForceUpload`
abbrev pub with_force_upload : UploadOption
with_force_upload o = record o { force_update = true }

-- `WithProgressInterval`
abbrev pub with_progress_interval : ℤ → UploadOption
with_progress_interval interval o = record o {
  progress_interval = if ltb_ℤ interval (5 * second) then pos (5 * second) else interval;
}

abbrev apply_options : List UploadOption → UploadOptions → UploadOptions
apply_options [] o = o
apply_options (f ∷ rest) o = apply_options rest (f o)

-- `initUploadOptions`
unfoldable pub init_upload_options : List UploadOption → UploadOptions
init_upload_options opts =
    apply_options opts (record {
      no_complession = false;
      force_update = false;
      progress_interval = pos (60 * second);
    })

-- `toQuery`
unfoldable pub to_query : UploadOptions → Values
to_query o =
    (if o.no_complession then ("no_compression", "true") ∷ [] else [])
    ++ (if o.force_update then ("force", "true") ∷ [] else [])

back :
    (plain force : Bool) (i : ℤ)
    → ((init_options (
          upload_options (
            to_query (record {
              no_complession = plain;
              force_update = force;
              progress_interval = i;
            })))).force
        ≡ force)
      × (get_unarchive_options (
            init_options (
              upload_options (
                to_query (record {
                  no_complession = plain;
                  force_update = force;
                  progress_interval = i;
                }))))
          ≡ (if plain then no_compression ∷ [] else []))
unfolding init_options upload_options to_query
back true true i = (refl, refl)
back true false i = (refl, refl)
back false true i = (refl, refl)
back false false i = (refl, refl)

-- The options that the agent reads from the query of an upload are the ones that the client was
-- given: an update is forced if and only if the upload is, and the archive is taken for not
-- compressed if and only if the client says so.
pub upload_options-to_query :
    (o : UploadOptions)
    → ((init_options (upload_options (to_query o))).force ≡ o.force_update)
      × (get_unarchive_options (init_options (upload_options (to_query o)))
          ≡ (if o.no_complession then no_compression ∷ [] else []))
upload_options-to_query o = back o.no_complession o.force_update o.progress_interval
