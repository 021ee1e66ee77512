-- ===== src/Examples/Migrations.antt =====
-- Migrations of internal/photondata, run, and its theorems at concrete data.
use photon_container.Base.{◌≡◌, refl, Option, none, some, List, [], ◌∷◌, ◌++◌, ℕ}
use photon_container.Examples.{root, env, world, unarchived_files}
use photon_container.Os.Calls.{remove_all, rename}
use photon_container.Os.Files.{Node, file, strip}
use photon_container.Photon.Types.{exited}
use photon_container.Photondata.Layout.{data_at, fresh_at}
use photon_container.Photondata.Migrator.{
  acquire, finish, replace_files, swap_in, migrate_by_replace,
}
use photon_container.Photondata.Outcomes.{InState, Unreplaced, migrate_by_replace_lem}
use photon_container.Photondata.Replacement.{Moved}
use photon_container.Photondata.Types.{MigrationState, migrated, migrating}
use photon_container.World.{World, Result, wrapped, ignored, recover, ◌>>=◌}
use photon_container.World.Rules.{Ensures}

-- The new database lies beside the old one, and the calls of the given numbers fail.
abbrev ready : List ℕ → World
ready faults = record (world (env faults (exited 143)) migrated) {
  files = unarchived_files (root ++ "temp" ∷ []) (world (env [] (exited 143)) migrated).files;
}

abbrev seen : Result (Unit {0}) × World → MigrationState × Option Node × Option Node
seen (r, w) = (
  w.migrator.state,
  w.files (root ++ "node_1" ∷ "index" ∷ []),
  w.files (root ++ "node_1.old" ∷ "index" ∷ []),
)

replaced :
    seen (migrate_by_replace (root ++ "temp" ∷ []) (ready []))
    ≡ (migrated, some (file (2 ∷ []) 2), none)
unfolding migrate_by_replace replace_files swap_in acquire finish rename remove_all strip wrapped
    ignored recover ◌>>=◌
replaced = refl

-- The second rename fails, and what was set aside is put back.
put_back :
    seen (migrate_by_replace (root ++ "temp" ∷ []) (ready (1 ∷ [])))
    ≡ (migrating, some (file (1 ∷ []) 1), none)
unfolding migrate_by_replace replace_files swap_in acquire finish rename remove_all strip wrapped
    ignored recover ◌>>=◌
put_back = refl

-- The third one fails too.
set_aside :
    seen (migrate_by_replace (root ++ "temp" ∷ []) (ready (1 ∷ 2 ∷ [])))
    ≡ (migrating, none, some (file (1 ∷ []) 1))
unfolding migrate_by_replace replace_files swap_in acquire finish rename remove_all strip wrapped
    ignored recover ◌>>=◌
set_aside = refl

migrate_by_replace_lem_example :
    Ensures
      (λ _ v. InState migrated (ready []) v × Moved root fresh_at (ready []) data_at v)
      (Unreplaced root (ready []))
      (migrate_by_replace (root ++ "temp" ∷ []) (ready []))
migrate_by_replace_lem_example = migrate_by_replace_lem root (ready []) refl
