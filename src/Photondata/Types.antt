-- ===== src/Photondata/Types.antt =====
-- internal/photondata/migrator.go and migrator_options.go: the state of a `Migrator`.
use photon_container.Base.{String, Bool, with_slash, true, false, List, [], ◌∷◌}
use photon_container.Base.Time.{Time, zero_time}
use photon_container.Os.Files.{FilePath, join}

pub data MigrationState : Type 0 where
  unknown migrated migrating : MigrationState

abbrev pub state_eq : MigrationState → MigrationState → Bool
state_eq unknown unknown = true
state_eq migrated migrated = true
state_eq migrating migrating = true
state_eq _ _ = false

-- The string that the state is in the source.
abbrev pub state_text : MigrationState → String
state_text unknown = "unknown"
state_text migrated = "migrated"
state_text migrating = "migrating"

abbrev pub migration_states : List MigrationState
migration_states = unknown ∷ migrated ∷ migrating ∷ []

pub record Migrator : Type 0 where
  pub data_dir : FilePath
  pub photon_url : String
  pub state : MigrationState
  pub cached_mod_time : Time

abbrev pub MigratorOption : Type 0
MigratorOption = Migrator → Migrator

abbrev pub with_photon_url : String → MigratorOption
unfolding with_slash
with_photon_url url m = record m { photon_url = with_slash url }

abbrev apply_options : List MigratorOption → Migrator → Migrator
apply_options [] m = m
apply_options (o ∷ rest) m = apply_options rest (o m)

unfoldable pub new_migrator : FilePath → List MigratorOption → Migrator
new_migrator photon_data_dir options = apply_options options (record {
  data_dir = join photon_data_dir ("node_1" ∷ []);
  photon_url = "http://localhost:2322/";
  state = unknown;
  cached_mod_time = zero_time;
})
