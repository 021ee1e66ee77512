-- ===== src/Downloader/Options.antt =====
-- internal/downloader/options.go, and the `Downloader` that `New` makes by it (downloader.go). A
-- speed is the number of bytes in a second that it was given as, before its conversion to a
-- float64; none is `math.MaxFloat64`. The retries that `New` sets are those of `do_request`.
use photon_container.Base.{ℕ, ◌*◌, Bool, true, false, Option, none, List, [], ◌∷◌}
use photon_container.Base.Time.{ℤ, pos, second}

abbrev pub SpeedLimit : Type 0
SpeedLimit = Option ℕ

pub record Downloader : Type 0 where
  pub hide_progress : Bool
  pub progress_interval : ℤ
  pub limit_download_bytes_per_sec : SpeedLimit
  pub limit_read_bytes_per_sec : SpeedLimit

abbrev pub DownloaderOption : Type 0
DownloaderOption = Downloader → Downloader

-- `WithoutProgress`
abbrev pub without_progress : DownloaderOption
without_progress d = record d { hide_progress = true }

-- `WithProgressInterval`
abbrev pub with_progress_interval : ℤ → DownloaderOption
with_progress_interval interval d = record d { progress_interval = interval }

-- `WithDownloadSpeedLimit`
abbrev pub with_download_speed_limit : SpeedLimit → DownloaderOption
with_download_speed_limit limit d = record d { limit_download_bytes_per_sec = limit }

-- `WithReadSpeedLimit`
abbrev pub with_read_speed_limit : SpeedLimit → DownloaderOption
with_read_speed_limit limit d = record d { limit_read_bytes_per_sec = limit }

abbrev apply_options : List DownloaderOption → Downloader → Downloader
apply_options [] d = d
apply_options (f ∷ rest) d = apply_options rest (f d)

-- `New`, as far as the options.
unfoldable pub new : List DownloaderOption → Downloader
new options = apply_options options (record {
  hide_progress = false;
  progress_interval = pos (60 * second);
  limit_download_bytes_per_sec = none;
  limit_read_bytes_per_sec = none;
})
