-- ===== src/Updater/LateRuns.antt =====
-- internal/updater/sequential.go: the goroutine of `UpdateAsync`, when it runs late.
use photon_container.Base.{◌≡◌, ap, ◌∙◌, ◌⊎◌, inl, inr, false, ◌++◌}
use photon_container.Os.Files.{Files}
use photon_container.Photon.Rules.{SameData, start_rule}
use photon_container.Photon.Types.{is_serving}
use photon_container.Photondata.Layout.{data_at, fresh_at, temp_at}
use photon_container.Photondata.Migrator.{run_migration}
use photon_container.Photondata.Outcomes.{run_migration_lem}
use photon_container.Photondata.Replacement.{Moved}
use photon_container.Photondata.Types.{Migrator, migrating, migrated}
use photon_container.Updater.Cleanup.{Beside, temp_cleanup, state_kept}
use photon_container.Updater.Sequential.{SequentialUpdater, update_in_background}
use photon_container.World.{World}
use photon_container.World.Rules.{Leaves, Ensures-bind, Ensures-weaken, Ensures-deferred_keeping}

-- The rest of an update, whenever it runs: it leaves the state migrating, or the database that is
-- unarchived then in place.
module _ (p : SequentialUpdater) (z : World)
    (placed : z.migrator.data_dir ≡ p.photon_data_dir ++ data_at)
    (busy : z.migrator.state ≡ migrating) (off : is_serving z.photon ≡ false) where
  abbrev pub Outcome : World → Type 0
  Outcome v =
      (v.migrator.state ≡ migrating)
      ⊎ ((v.migrator.state ≡ migrated) × Moved p.photon_data_dir fresh_at z data_at v)

  Outcome-kept : (v x : World) → Beside p.photon_data_dir v x → Outcome v → Outcome x
  Outcome-kept v x k (inl s) = inl (state_kept p.photon_data_dir k migrating s)
  Outcome-kept v x k (inr (s, m)) =
      inr (state_kept p.photon_data_dir k migrated s, λ q. k.data_kept q ∙ m q)

  started_Outcome :
      (v x : World)
      → SameData v x
      → v.migrator.state ≡ migrated
      → Moved p.photon_data_dir fresh_at z data_at v
      → Outcome x
  started_Outcome v x s done m = inr (
    ap (λ (n : Migrator). n.state) s.migrator ∙ done,
    (λ q. ap (λ (f : Files). f (p.photon_data_dir ++ (data_at ++ q))) s.files ∙ m q),
  )

  pub rest_of_update_lem :
      Leaves Outcome (update_in_background p (run_migration (p.photon_data_dir ++ temp_at)) z)
  unfolding update_in_background
  rest_of_update_lem =
      Ensures-deferred_keeping (Beside p.photon_data_dir) _ _ z (temp_cleanup p.photon_data_dir)
        (λ _. Outcome-kept) (λ _. Outcome-kept)
        (Ensures-bind
          {P = λ _ v.
            (is_serving v.photon ≡ false)
            × (v.migrator.state ≡ migrated)
            × Moved p.photon_data_dir fresh_at z data_at v}
          _ _ z
          (Ensures-weaken (run_migration_lem p.photon_data_dir z placed)
            (λ _ v h. (ap is_serving h.0.1 ∙ off, ap (λ (n : Migrator). n.state) h.0.0, h.1))
            (λ _ v h. inl (ap (λ (n : Migrator). n.state) h.0.migrator ∙ busy)))
          (λ _ v h.
            Ensures-weaken (start_rule v h.0) (λ _ x s. started_Outcome v x s.0 h.1 h.2)
              (λ _ x s. started_Outcome v x s.0 h.1 h.2)))
