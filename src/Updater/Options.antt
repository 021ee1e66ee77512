-- ===== src/Updater/Options.antt =====
-- internal/updater/options.go and constants.go.
use photon_container.Base.{
  String, Bool, true, false, Option, none, some, List, [], ◌∷◌, ◌++◌, str_eq, if◌then◌else◌,
}
use photon_container.Photondata.Archive.{Archive, from_archive_name}
use photon_container.Unarchiver.Options.{UnarchiveOption}

pub data UpdateStrategy : Type 0 where
  sequential parallel : UpdateStrategy
  other : String → UpdateStrategy

-- `NewUpdateStrategy`
unfoldable pub new_update_strategy : String → UpdateStrategy
new_update_strategy s =
    if str_eq s "sequential"
    then sequential
    else if str_eq s "parallel"
    then parallel
    else sequential

-- `unarchive_opts` is a pointer to a slice.
pub record UpdateOptions : Type 0 where
  pub force : Bool
  pub archive_name : String
  pub unarchive_opts : Option (List UnarchiveOption)

abbrev pub UpdateOption : Type 0
UpdateOption = UpdateOptions → UpdateOptions

abbrev appended : List UnarchiveOption → Option (List UnarchiveOption) → List UnarchiveOption
appended opts none = opts
appended opts (some []) = opts
appended opts (some (o ∷ rest)) = (o ∷ rest) ++ opts

-- `WithUnarchiveOptions`, where a nil slice and an empty one are alike.
abbrev pub with_unarchive_options : List UnarchiveOption → UpdateOption
with_unarchive_options opts o = record o { unarchive_opts = some (appended opts o.unarchive_opts) }

-- `WithForceUpdate`
abbrev pub with_force_update : UpdateOption
with_force_update o = record o { force = true }

-- `WithArchiveName`
abbrev pub with_archive_name : String → UpdateOption
with_archive_name name o = record o { archive_name = name }

abbrev apply_options : List UpdateOption → UpdateOptions → UpdateOptions
apply_options [] o = o
apply_options (f ∷ rest) o = apply_options rest (f o)

-- `initOptions`
unfoldable pub init_options : List UpdateOption → UpdateOptions
init_options opts =
    apply_options opts (record { force = false; archive_name = ""; unarchive_opts = some [] })

-- `getArchive`
unfoldable pub get_archive : UpdateOptions → Archive → Archive
get_archive o orig =
    if str_eq o.archive_name "" then orig else from_archive_name orig o.archive_name

abbrev pointed : Option (List UnarchiveOption) → List UnarchiveOption
pointed none = []
pointed (some opts) = opts

-- `getUnarchiveOptions`; the pointer is never nil after `init_options`.
abbrev pub get_unarchive_options : UpdateOptions → List UnarchiveOption
get_unarchive_options o = pointed o.unarchive_opts
