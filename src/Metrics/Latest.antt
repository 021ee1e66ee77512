-- ===== src/Metrics/Latest.antt =====
-- internal/metrics/photon.go: the goroutine that `NewLatestPhotonDataMetrics` starts, over what
-- wakes it.
use photon_container.Base.{◌≡◌, refl, sym, ap, length, List, [], ◌∷◌}
use photon_container.Base.Time.{Time, negsuc, zero_time, unix}
use mathlib.Core.List.{map, mem-cons_self}
use photon_container.Metrics.{
  Desc, Wake, cancelled, ticked, LatestPhotonDataMetrics, LatestPhotonDataMetricsOption,
  set_options, with_ticker, update_last_modified_time, refreshed, collect_latest, describe_latest,
  IsDescribed,
}
use photon_container.Photondata.Archive.{Archive, name}
use photon_container.Updater.Dependencies.{Downloader}
use photon_container.World.{World, Result, ok, err}

-- What `NewLatestPhotonDataMetrics` describes.
abbrev pub last_modified_desc : Desc
last_modified_desc = record {
  fq_name = "photon_latest_database_last_modified_timestamp_seconds";
  help = "Last modified timestamp of the latest photon database in seconds";
  variable_labels = "database_source" ∷ "database_name" ∷ [];
}

module _ (dl : Downloader) where
  -- The loop of the goroutine.
  unfoldable pub refresh_loop :
      List Wake → LatestPhotonDataMetrics → World → LatestPhotonDataMetrics × World
  refresh_loop [] pm w = (pm, w)
  refresh_loop (cancelled ∷ rest) pm w = (pm, w)
  refresh_loop (ticked f ∷ rest) pm w =
      let (next, v) = update_last_modified_time dl pm (f w) in refresh_loop rest next v

  -- The collector before its first request. `hourly` is what the default ticker is.
  abbrev pub initial :
      Archive → List Wake → List LatestPhotonDataMetricsOption → LatestPhotonDataMetrics
  initial archive hourly options = set_options options (record {
    archive = archive;
    last_modified_desc = last_modified_desc;
    last_modified_time = zero_time;
    ticker = hourly;
  })

  -- `NewLatestPhotonDataMetrics`, with its goroutine: the time is asked for at once, and then by
  -- the ticker.
  unfoldable pub new_latest_photon_data_metrics :
      Archive
      → List Wake
      → List LatestPhotonDataMetricsOption
      → World
      → LatestPhotonDataMetrics × World
  new_latest_photon_data_metrics archive hourly options w =
      let start = initial archive hourly options in
      let (pm, v) = update_last_modified_time dl start w in refresh_loop start.ticker pm v

  module _ (archive : Archive) (P : Time → Type 0)
      (known : (w : World) (t : Time) → (dl.get_last_modified archive w).0 ≡ ok t → P t) where
    abbrev Good : LatestPhotonDataMetrics → Type 0
    Good pm =
        (pm.archive ≡ archive)
        × P pm.last_modified_time
        × (pm.last_modified_desc ≡ last_modified_desc)

    refreshed-Good :
        (pm : LatestPhotonDataMetrics) (r : Result Time) (w : World)
        → (dl.get_last_modified archive w).0 ≡ r
        → Good pm
        → Good (refreshed pm r)
    refreshed-Good pm (ok t) w e h = (h.0, known w t e, h.2)
    refreshed-Good pm (err _) w e h = h

    update-Good :
        (pm : LatestPhotonDataMetrics) (w : World)
        → Good pm
        → Good (update_last_modified_time dl pm w).0
    unfolding update_last_modified_time
    update-Good pm w h =
        refreshed-Good pm (dl.get_last_modified pm.archive w).0 w
          (ap (λ a. (dl.get_last_modified a w).0) (sym h.0)) h

    refresh_loop-Good :
        (wakes : List Wake) (pm : LatestPhotonDataMetrics) (w : World)
        → Good pm
        → Good (refresh_loop wakes pm w).0
    unfolding refresh_loop
    refresh_loop-Good [] pm w h = h
    refresh_loop-Good (cancelled ∷ rest) pm w h = h
    refresh_loop-Good (ticked f ∷ rest) pm w h =
        refresh_loop-Good rest (update_last_modified_time dl pm (f w)).0
          (update_last_modified_time dl pm (f w)).1 (update-Good pm (f w) h)

    set_options-Good :
        (tickers : List (List Wake)) (pm : LatestPhotonDataMetrics)
        → Good pm
        → Good (set_options (map with_ticker tickers) pm)
    set_options-Good [] pm h = h
    set_options-Good (t ∷ rest) pm h = set_options-Good rest (with_ticker t pm) h

    -- The gauge is never made up, and always described: whatever holds of Go's zero time and of
    -- every time that the downloader answers for the archive holds of a time that, in seconds, is
    -- the value of the gauge, however often and whenever the collector is refreshed, by the
    -- default ticker or by one that `WithTicker` sets, and whichever requests fail; its labels are
    -- the URL and the name of the archive, one for each label of its description, which is the one
    -- that `Describe` sends.
    pub latest-known :
        (hourly : List Wake) (tickers : List (List Wake)) (w : World)
        → P zero_time
        → let pm = (new_latest_photon_data_metrics archive hourly (map with_ticker tickers) w).0 in
          ((t : Time) × P t × ((collect_latest pm).value ≡ unix t))
          × ((collect_latest pm).labels ≡ archive.base_url ∷ name archive ∷ [])
          × IsDescribed (describe_latest pm) (collect_latest pm)
    unfolding new_latest_photon_data_metrics collect_latest
    latest-known hourly tickers w h =
        let first =
          update_last_modified_time dl (initial archive hourly (map with_ticker tickers)) w in
        let (a, p, d) =
          refresh_loop-Good (initial archive hourly (map with_ticker tickers)).ticker first.0
            first.1
            (update-Good (initial archive hourly (map with_ticker tickers)) w
              (set_options-Good tickers _ (refl, h, refl))) in
        (
          (_, p, refl),
          ap (λ x. x.base_url ∷ name x ∷ []) a,
          (mem-cons_self, sym (ap (λ x. length x.variable_labels) d)),
        )

-- Until a request succeeds, the gauge is Go's zero time: 62,135,596,800 seconds before 1970.
unknown_time : unix zero_time ≡ negsuc 62_135_596_799
unfolding unix
unknown_time = refl
