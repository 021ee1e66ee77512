-- ===== src/Photondata/Migrator.antt =====
-- internal/photondata/migrator.go: the methods of a `Migrator`. What stands between Lock and
-- Unlock is one step; `MigrateByReplace` has file calls between its two locked parts.
use photon_container.Base.{String, not, Option, none, some, [], ◌∷◌, lower_eq, if◌then◌else◌}
use photon_container.Base.Time.{Time}
use photon_container.Os.Files.{FilePath, join, with_suffix}
use photon_container.Os.Calls.{rename, remove_all}
use photon_container.Photondata.Types.{MigrationState, unknown, migrated, migrating, state_eq}
use photon_container.World.{
  World, M, Result, ok, err, migration_in_progress, failed, StatusReply, no_status, status_json,
  tick, pure, raise, wrapped, ignored, recover, ◌>>◌,
}

abbrev pub set_state : MigrationState → World → World
set_state s w = record w { migrator = record w.migrator { state = s } }

abbrev parsed_date : Option Time → Result Time
parsed_date none = err (failed "failed to parse import_date")
parsed_date (some t) = ok t

abbrev version_of : StatusReply → Result Time
version_of no_status = err (failed "status")
version_of (status_json status date) =
    if not (lower_eq status "ok") then err (failed "status is not OK") else parsed_date date

-- `getVersion`
unfoldable pub get_version : M Time
get_version w = (version_of (w.env.status w.now), tick w)

observe : Result Time → World → (MigrationState × Time) × World
observe (err _) w = ((w.migrator.state, w.migrator.cached_mod_time), w)
observe (ok t) w =
    let s = if state_eq w.migrator.state unknown then migrated else w.migrator.state in
    ((s, t), record w { migrator = record w.migrator { state = s; cached_mod_time = t } })

-- `State`
unfoldable pub state : World → (MigrationState × Time) × World
unfolding get_version observe
state w = let (r, w') = get_version w in observe r w'

reset_to : Result Time → MigrationState
reset_to (err _) = unknown
reset_to (ok _) = migrated

-- `ResetState`
unfoldable pub reset_state : M (Unit {0})
unfolding get_version reset_to
reset_state w = let (r, w') = get_version w in (ok tt, set_state (reset_to r) w')

-- The first locked part of both migrations.
unfoldable pub acquire : M (Unit {0})
acquire w =
    if state_eq w.migrator.state migrating
    then (err migration_in_progress, w)
    else (ok tt, set_state migrating w)

-- The last locked part of both migrations.
unfoldable pub finish : M (Unit {0})
finish w = (ok tt, set_state migrated w)

abbrev pub old_dir : FilePath → FilePath
old_dir p = with_suffix p ".old"

abbrev pub unarchived_data_dir : FilePath → FilePath
unarchived_data_dir unarchived = join unarchived ("photon_data" ∷ "node_1" ∷ [])

-- The second rename. In its error branch what was set aside is put back.
unfoldable pub swap_in : FilePath → FilePath → M (Unit {0})
swap_in data_dir fresh =
    recover (rename fresh data_dir) λ e. do ignored (rename (old_dir data_dir) data_dir); raise e

abbrev replace_label : String
replace_label = "photondata.Migrator.MigrateByReplace: failed to rename"

-- The file calls of `MigrateByReplace`.
unfoldable pub replace_files : FilePath → FilePath → M (Unit {0})
replace_files data_dir unarchived = do
  wrapped replace_label (rename data_dir (old_dir data_dir))
  wrapped replace_label (swap_in data_dir (unarchived_data_dir unarchived))
  ignored (remove_all (old_dir data_dir))

-- `MigrateByReplace`
unfoldable pub migrate_by_replace : FilePath → M (Unit {0})
migrate_by_replace unarchived w =
    (do
      wrapped "photondata.Migrator.MigrateByReplace" acquire
      replace_files w.migrator.data_dir unarchived
      finish)
      w

-- The function that `MigrateByRemoveFirst` returns.
unfoldable pub run_migration : FilePath → M (Unit {0})
run_migration unarchived w =
    (do
      wrapped "photondata.Migrator.MigrateByRemoveFirst: failed to rename"
          (rename (unarchived_data_dir unarchived) w.migrator.data_dir)
      finish)
      w

-- `MigrateByRemoveFirst`
unfoldable pub migrate_by_remove_first : FilePath → M (M (Unit {0}))
migrate_by_remove_first unarchived w =
    (do
      wrapped "photondata.Migrator.MigrateByRemoveFirst" acquire
      wrapped "photondata.Migrator.MigrateByRemoveFirst: failed to remove"
          (remove_all w.migrator.data_dir)
      pure (run_migration unarchived))
      w
