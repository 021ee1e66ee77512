-- ===== src/Updater/RemovalSuccess.antt =====
-- internal/photondata/migrator.go, as the sequential strategy uses it: a removal and a migration
-- that meet no fault succeed.
use photon_container.Base.{◌≡◌, ◌≢◌, refl, sym, subst, ◌++◌, ℕ, true, false, none, some, [], arith}
use mathlib.Core.Path.{subst₂}
use photon_container.Os.Calls.{rename, remove_all, is_dir}
use photon_container.Os.Files.{FilePath, Node, strip}
use photon_container.Os.Laws.{local, rename-local_succeeds}
use photon_container.Photondata.Layout.{data_at, fresh_at, temp_at, unarchived_data_dir-append}
use photon_container.Photondata.Migrator.{finish, run_migration, migrate_by_remove_first}
use photon_container.Photondata.Outcomes.{
  InState, Removed, migrate_by_remove_first_lem, run_migration_lem,
}
use photon_container.Photondata.Replacement.{Moved}
use photon_container.Photondata.Success.{Succeeds, acquire_succeeds, is_base}
use photon_container.Photondata.Types.{migrating, migrated}
use photon_container.Updater.RestartSuccess.{
  same_env, rename-env, remove_all-env, acquire-env, finish-env,
}
use photon_container.World.{World}
use photon_container.World.Frames.{Keeping, Keeping-bind, Keeping-wrapped, Keeping-pure}
use photon_container.World.Rules.{
  Ensures, Ensures-bind, Ensures-both, Ensures-pure, Ensures-weaken, Ensures-wrapped,
}

pub migrate_by_remove_first-env : (t : FilePath) → Keeping same_env (migrate_by_remove_first t)
unfolding migrate_by_remove_first
migrate_by_remove_first-env t w =
    Keeping-bind same_env _ _ (Keeping-wrapped same_env _ _ acquire-env)
      (λ _.
        Keeping-bind same_env _ _
          (Keeping-wrapped same_env _ _ (remove_all-env w.migrator.data_dir))
          (λ _. Keeping-pure same_env (run_migration t)))
      w

run_migration-env : (t : FilePath) → Keeping same_env (run_migration t)
unfolding run_migration
run_migration-env t w =
    Keeping-bind same_env _ _ (Keeping-wrapped same_env _ _ (rename-env _ w.migrator.data_dir))
      (λ _. finish-env) w

remove_all-Succeeds :
    (p : FilePath) (w : World) → w.env.fault w.now ≡ false → Succeeds (remove_all p w)
unfolding remove_all
remove_all-Succeeds p w h = ground (arith, h)

module _ (root : FilePath) (w : World) (placed : w.migrator.data_dir ≡ root ++ data_at)
    (calm : (n : ℕ) → w.env.fault n ≡ false) where
  removal_returns :
      w.migrator.state ≢ migrating → Succeeds (migrate_by_remove_first (root ++ temp_at) w)
  unfolding migrate_by_remove_first
  removal_returns free =
      Ensures-bind _ _ w (Ensures-wrapped _ _ w (acquire_succeeds root w free)) (λ _ v h.
        Ensures-bind {P = λ _ _. Unit {0}} _ _ v
          (Ensures-wrapped _ _ v (
            remove_all-Succeeds _ v
              (subst (λ (z : World). z.env.fault z.now ≡ false) (sym h) (calm w.now))))
          (λ _ _ _. Ensures-pure tt))

  -- A removal that meets no fault succeeds.
  pub removes :
      w.migrator.state ≢ migrating
      → Ensures
          (λ run d. ((run ≡ run_migration (root ++ temp_at)) × Removed root w d) × (d.env ≡ w.env))
          (λ _ _. ⊥)
          (migrate_by_remove_first (root ++ temp_at) w)
  removes free =
      Ensures-weaken
        (Ensures-both _ (removal_returns free) (
          Ensures-both _ (migrate_by_remove_first_lem root w placed)
            (migrate_by_remove_first-env (root ++ temp_at) w)))
        (λ _ _ h. h.1) (λ _ _ h. h.0)

  migration_returns :
      (node : Node)
      → is_dir (local root w.files []) ≡ true
      → local root w.files fresh_at ≡ some node
      → local root w.files data_at ≡ none
      → Succeeds (run_migration (root ++ temp_at) w)
  unfolding run_migration finish strip
  migration_returns node base beside gone =
      Ensures-bind {P = λ _ _. Unit {0}} _ _ w
        (Ensures-wrapped _ _ w (
          subst₂ (λ p d. Succeeds (rename p d w)) (sym (unarchived_data_dir-append root))
            (sym placed)
            (Ensures-weaken
              (rename-local_succeeds root fresh_at "node_1" node w (calm w.now) beside gone
                (is_base root w base) refl)
              (λ _ _ _. tt) (λ _ _ h. h))))
        (λ _ v _. record { at = tt })

  -- The migration succeeds where nothing stands in its way.
  pub migrates :
      (node : Node)
      → is_dir (local root w.files []) ≡ true
      → local root w.files fresh_at ≡ some node
      → local root w.files data_at ≡ none
      → Ensures
          (λ _ z. (InState migrated w z × Moved root fresh_at w data_at z) × (z.env ≡ w.env))
          (λ _ _. ⊥)
          (run_migration (root ++ temp_at) w)
  migrates node base beside gone =
      Ensures-weaken
        (Ensures-both _ (migration_returns node base beside gone) (
          Ensures-both _ (run_migration_lem root w placed) (run_migration-env (root ++ temp_at) w)))
        (λ _ _ h. h.1) (λ _ _ h. h.0)
