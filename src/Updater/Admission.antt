-- ===== src/Updater/Admission.antt =====
-- internal/updater/updater.go and constants.go: which updates are let through, and with what.
use photon_container.Base.{
  ◌≡◌, ◌↔◌, ◌+◌, ◌<◌, sym, ltb, true, false, List, [], arith, if◌then◌else◌, ◌∙◌,
}
use photon_container.Base.Time.{Time}
use photon_container.Photondata.Archive.{Archive}
use photon_container.Updater.Entry.{
  Updater, is_newer, check_migratability, update_if_newer, tolerance, impl_download_and_update,
  download_and_update,
}
use photon_container.Photondata.Migrator.{state, reset_state}
use photon_container.World.{World, ok, err, failed, wrapped, ignored, ◌>>=◌, ◌>>◌}
use photon_container.Updater.Options.{UpdateOption, init_options, get_archive}

-- A database is newer exactly if it was modified more than seven days after the import; that the
-- difference of two times saturates changes nothing.
pub is_newer_iff :
    (last_modified import_time : Time)
    → (is_newer last_modified import_time ≡ true) ↔ (import_time + tolerance < last_modified)
unfolding is_newer
is_newer_iff l i = ground arith

forced :
    (u : Updater) (archive : Archive) (options : List UpdateOption)
    → (init_options options).force ≡ true
    → download_and_update u archive options
      ≡ (do ignored reset_state; impl_download_and_update u.updater_impl archive [])
unfolding download_and_update
forced u archive options h = rw h

-- Two forced downloads do the same, whatever archives their options name.
pub forced_download-eq :
    (u : Updater) (archive : Archive) (options other : List UpdateOption)
    → (init_options options).force ≡ true
    → (init_options other).force ≡ true
    → download_and_update u archive options ≡ download_and_update u archive other
forced_download-eq u archive options other h k =
    forced u archive options h ∙ sym (forced u archive other k)

-- Without force, an update goes on to its strategy if the database is newer, by more than the
-- tolerance, than the import that `State` reports; if not it ends there, with an error.
pub admitted_update :
    (u : Updater) (archive : Archive) (options : List UpdateOption) (w v : World) (l : Time)
    → (init_options options).force ≡ false
    → u.downloader.get_last_modified (get_archive (init_options options) archive) (state w).1
      ≡ (ok l, v)
    → download_and_update u archive options w ≡ (
        if ltb ((state w).0.1 + tolerance) l
        then impl_download_and_update u.updater_impl
            (get_archive (init_options options) archive)
            []
            v
        else (err (failed "updater.Updater.UpdateByLocalArchive: database is up to date"), v))
unfolding download_and_update update_if_newer check_migratability ◌>>=◌ wrapped is_newer
admitted_update u archive options w v l free found = ground arith
