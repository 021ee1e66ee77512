-- ===== src/Metrics.antt =====
-- internal/metrics/migrate.go and photon.go: what the collectors send to Prometheus.
pub mod Latest
use photon_container.Base.{ℕ, ◌≡◌, refl, String, List, [], ◌∷◌, if◌then◌else◌, leb, length}
use mathlib.Core.List.{Mem, mem-cons_self, mem-cons_of_mem}
use photon_container.Base.Time.{Time, ℤ, pos, unix}
use photon_container.Photondata.Archive.{Archive, name}
use photon_container.Photondata.Migrator.{state}
use photon_container.Photondata.Types.{
  MigrationState, state_eq, state_text, migration_states, unknown, migrated, migrating,
}
use photon_container.Updater.Dependencies.{Downloader}
use photon_container.World.{World, Result, ok, err}

-- A `prometheus.Desc`, without constant labels.
pub record Desc : Type 0 where
  pub fq_name : String
  pub help : String
  pub variable_labels : List String

-- A gauge, by the values of its labels.
pub record Metric : Type 0 where
  pub desc : Desc
  pub value : ℤ
  pub labels : List String

pub record MigrateStatusMetrics : Type 0 where
  pub migrate_status_info_desc : Desc
  pub data_imported_time_desc : Desc

-- `NewMigrateStatusMetrics`
abbrev pub new_migrate_status_metrics : MigrateStatusMetrics
new_migrate_status_metrics = record {
  migrate_status_info_desc = record {
    fq_name = "photon_migrate_status_info";
    help = "Migration status info";
    variable_labels = "state" ∷ [];
  };
  data_imported_time_desc = record {
    fq_name = "photon_data_imported_timestamp_seconds";
    help = "Timestamp of the photon imported data in seconds";
    variable_labels = [];
  };
}

-- `MigrateStatusMetrics.Describe`
abbrev pub describe : MigrateStatusMetrics → List Desc
describe m = m.migrate_status_info_desc ∷ m.data_imported_time_desc ∷ []

abbrev state_value : MigrationState → MigrationState → ℕ
state_value actual s = if state_eq s actual then 1 else 0

abbrev pub state_metrics : MigrateStatusMetrics → MigrationState → List MigrationState → List Metric
state_metrics m actual [] = []
state_metrics m actual (s ∷ rest) =
    (record {
      desc = m.migrate_status_info_desc;
      value = pos (state_value actual s);
      labels = state_text s ∷ [];
    })
    ∷ state_metrics m actual rest

abbrev imported : MigrateStatusMetrics → Time → Metric
imported m version = record { desc = m.data_imported_time_desc; value = unix version; labels = [] }

-- `MigrateStatusMetrics.Collect`: the states one by one, and the time of the import behind them.
unfoldable pub collect : MigrateStatusMetrics → World → (List Metric × Metric) × World
collect m w =
    let ((actual, version), v) = state w in
    ((state_metrics m actual migration_states, imported m version), v)

-- What the ticker of `LatestPhotonDataMetrics` is for its goroutine: the end of the context, or a
-- tick, with what the rest of the agent has done until then.
pub data Wake : Type 0 where
  cancelled : Wake
  ticked : (World → World) → Wake

pub record LatestPhotonDataMetrics : Type 0 where
  pub archive : Archive
  pub last_modified_desc : Desc
  pub last_modified_time : Time
  pub ticker : List Wake

abbrev pub LatestPhotonDataMetricsOption : Type 0
LatestPhotonDataMetricsOption = LatestPhotonDataMetrics → LatestPhotonDataMetrics

-- `WithTicker`
abbrev pub with_ticker : List Wake → LatestPhotonDataMetricsOption
with_ticker wakes pm = record pm { ticker = wakes }

abbrev pub set_options :
    List LatestPhotonDataMetricsOption → LatestPhotonDataMetrics → LatestPhotonDataMetrics
set_options [] pm = pm
set_options (f ∷ rest) pm = set_options rest (f pm)

-- `LatestPhotonDataMetrics.Describe`
abbrev pub describe_latest : LatestPhotonDataMetrics → List Desc
describe_latest pm = pm.last_modified_desc ∷ []

abbrev pub refreshed : LatestPhotonDataMetrics → Result Time → LatestPhotonDataMetrics
refreshed pm (ok t) = record pm { last_modified_time = t }
refreshed pm (err _) = pm

-- `updateLastModifiedTime`
unfoldable pub update_last_modified_time :
    Downloader → LatestPhotonDataMetrics → World → LatestPhotonDataMetrics × World
update_last_modified_time dl pm w =
    let (r, v) = dl.get_last_modified pm.archive w in (refreshed pm r, v)

-- `LatestPhotonDataMetrics.Collect`
unfoldable pub collect_latest : LatestPhotonDataMetrics → Metric
collect_latest pm = record {
  desc = pm.last_modified_desc;
  value = unix pm.last_modified_time;
  labels = pm.archive.base_url ∷ name pm.archive ∷ [];
}

-- The labels of the gauges that are not 0.
abbrev raised : ℤ → List String → List (List String) → List (List String)
raised (pos n) labels rest = if leb n 0 then rest else labels ∷ rest
raised (ℤ.negsuc n) labels rest = labels ∷ rest

abbrev pub raised_labels : List Metric → List (List String)
raised_labels [] = []
raised_labels (m ∷ rest) = raised m.value m.labels (raised_labels rest)

-- What `MustNewConstMetric` and the registry ask of a metric: a value for each of the labels of its
-- description, which is one of those that the collector describes.
abbrev pub IsDescribed : List Desc → Metric → Type 0
IsDescribed described m = Mem m.desc described × (length m.labels ≡ length m.desc.variable_labels)

abbrev pub AllDescribed : List Desc → List Metric → Type 0
AllDescribed described [] = Unit {0}
AllDescribed described (m ∷ rest) = IsDescribed described m × AllDescribed described rest

raised_state :
    (m : MigrateStatusMetrics) (s : MigrationState)
    → raised_labels (state_metrics m s migration_states) ≡ (state_text s ∷ []) ∷ []
raised_state m unknown = refl
raised_state m migrated = refl
raised_state m migrating = refl

-- A collection sends one gauge for each state of a migration, of which exactly one is not 0, and its
-- label is the state that `State` reports in that world; and each gauge that it sends has one value
-- for each of the labels of its description, which is one of those that `Describe` sends.
pub collect-state :
    (w : World)
    → (raised_labels (collect new_migrate_status_metrics w).0.0
        ≡ (state_text (state w).0.0 ∷ []) ∷ [])
      × AllDescribed
          (describe new_migrate_status_metrics)
          ((collect new_migrate_status_metrics w).0.1 ∷ (collect new_migrate_status_metrics w).0.0)
unfolding collect
collect-state w = (
  raised_state new_migrate_status_metrics (state w).0.0,
  (
    (mem-cons_of_mem _ mem-cons_self, refl),
    ((mem-cons_self, refl), ((mem-cons_self, refl), ((mem-cons_self, refl), tt))),
  ),
)
