-- ===== src/Updater/Restart.antt =====
-- internal/updater/parallel.go: what `restartPhotonServer` brings about, on every branch.
use photon_container.Base.{◌≡◌, refl, subst, sym, ap, ◌∙◌, true, false, ◌⊎◌, inl, inr, ◌++◌}
use photon_container.Os.Files.{FilePath, Files}
use photon_container.World.{World, Error}
use photon_container.World.Rules.{Ensures, Ensures-bind, Ensures-wrapped, Ensures-weaken}
use photon_container.Photon.Types.{is_serving, was_killed}
use photon_container.Photon.Rules.{SameData, stop_rule, start_rule}
use photon_container.Photondata.Types.{MigrationState, Migrator, migrating, migrated}
use photon_container.Photondata.Migrator.{migrate_by_replace}
use photon_container.Photondata.Layout.{data_at, old_at, fresh_at, temp_at}
use photon_container.Photondata.Outcomes.{InState, Unreplaced, migrate_by_replace_lem}
use photon_container.Photondata.Replacement.{Moved}
use photon_container.Updater.Parallel.{restart_photon_server}

module _ (root : FilePath) (w : World) where
  abbrev pub Restarted : World → Type 0
  Restarted v =
      (v.migrator.state ≡ migrated)
      × Moved root fresh_at w data_at v
      × ((is_serving v.photon ≡ true) ⊎ (was_killed v.photon ≡ true))

  abbrev pub Down : World → Type 0
  Down v =
      (is_serving v.photon ≡ false)
      × (((v.migrator.state ≡ migrating)
            × (Moved root data_at w data_at v ⊎ Moved root data_at w old_at v))
          ⊎ ((v.migrator.state ≡ migrated) × Moved root fresh_at w data_at v))

  abbrev Replaced : World → Type 0
  Replaced v =
      (is_serving v.photon ≡ false)
      × (v.migrator.state ≡ migrated)
      × Moved root fresh_at w data_at v

  from_same :
      (b a : FilePath) (v u : World) → SameData w v → Moved root b v a u → Moved root b w a u
  from_same b a v u s m q = m q ∙ ap (λ (f : Files). f (root ++ (b ++ q))) s.files

  to_same : (b a : FilePath) (v u : World) → SameData v u → Moved root b w a v → Moved root b w a u
  to_same b a v u s m q = ap (λ (f : Files). f (root ++ (a ++ q))) s.files ∙ m q

  state_of : (v u : World) (s : MigrationState) → InState s v u → u.migrator.state ≡ s
  state_of v u s h = ap (λ (m : Migrator). m.state) h.0

  off_after :
      (v u : World) (s : MigrationState)
      → is_serving v.photon ≡ false
      → InState s v u
      → is_serving u.photon ≡ false
  off_after v u s off h = ap is_serving h.1 ∙ off

  refused_Down :
      (v u : World)
      → SameData w v
      → is_serving v.photon ≡ false
      → v.migrator.state ≡ migrating
      → u ≡ v
      → Down u
  refused_Down v u same off busy e =
      subst Down (sym e) (off, inl (busy, inl (to_same data_at data_at w v same (λ q. refl))))

  kept_Down :
      (v u : World)
      → SameData w v
      → is_serving v.photon ≡ false
      → InState migrating v u
      → Moved root data_at v data_at u ⊎ Moved root data_at v old_at u
      → Down u
  kept_Down v u same off s (inl m) = (
    off_after v u migrating off s,
    inl (state_of v u migrating s, inl (from_same data_at data_at v u same m)),
  )
  kept_Down v u same off s (inr m) = (
    off_after v u migrating off s,
    inl (state_of v u migrating s, inr (from_same data_at old_at v u same m)),
  )

  Unreplaced-Down :
      (v : World) (e : Error) (u : World)
      → SameData w v
      → is_serving v.photon ≡ false
      → Unreplaced root v e u
      → Down u
  Unreplaced-Down v e u same off (inl (busy, _, still)) = refused_Down v u same off busy still
  Unreplaced-Down v e u same off (inr (s, m)) = kept_Down v u same off s m

  replace_rule :
      w.migrator.data_dir ≡ root ++ data_at
      → (v : World) → SameData w v
      → is_serving v.photon ≡ false
      → Ensures (λ _. Replaced) (λ _. Down) (migrate_by_replace (root ++ temp_at) v)
  replace_rule placed v same off =
      Ensures-weaken
        (migrate_by_replace_lem root v (ap (λ (m : Migrator). m.data_dir) same.migrator ∙ placed))
        (λ _ u h. (
          off_after v u migrated off h.0,
          state_of v u migrated h.0,
          from_same fresh_at data_at v u same h.1,
        ))
        (λ e u h. Unreplaced-Down v e u same off h)

  -- `restartPhotonServer` of a migrator over the directory. Without an error: the state is
  -- migrated, what was unarchived stands where the database was, and a process serves, or a signal
  -- had killed the last one. With an error, of any of its steps, a refusal because a migration is
  -- in progress included: nothing serves; and either the state is migrating and the old database
  -- is in its place or in the place where it is set aside, or the state is migrated and the new
  -- database is in place.
  pub restart_photon_server_lem :
      w.migrator.data_dir ≡ root ++ data_at
      → Ensures (λ _. Restarted) (λ _. Down) (restart_photon_server (root ++ temp_at) w)
  unfolding restart_photon_server
  restart_photon_server_lem placed =
      Ensures-bind _ _ w
        (Ensures-wrapped _ _ w (Ensures-weaken (stop_rule w) (λ _ v h. h) (λ _ v h. absurd h)))
        (λ _ v h.
          Ensures-bind _ _ v (Ensures-wrapped _ _ v (replace_rule placed v h.0 h.1)) (λ _ u k.
            Ensures-wrapped _ _ u (
              Ensures-weaken (start_rule u k.0)
                (λ _ x s. (
                  ap (λ (m : Migrator). m.state) s.0.migrator ∙ k.1,
                  to_same fresh_at data_at u x s.0 k.2,
                  s.1,
                ))
                (λ _ x s. (
                  s.1,
                  inr (
                    ap (λ (m : Migrator). m.state) s.0.migrator ∙ k.1,
                    to_same fresh_at data_at u x s.0 k.2,
                  ),
                )))))
