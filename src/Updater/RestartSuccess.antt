-- ===== src/Updater/RestartSuccess.antt =====
-- internal/updater/parallel.go: a restart that meets no fault succeeds.
use photon_container.Base.{◌≡◌, ◌≢◌, refl, sym, ap, ◌∙◌, ◌++◌, ℕ, true, false, [], arith}
use photon_container.Os.Calls.{rename, remove_all, is_dir}
use photon_container.Os.Files.{FilePath, Files}
use photon_container.Os.Laws.{local}
use photon_container.Photon.Rules.{SameData}
use photon_container.Photon.Server.{start, stop, running}
use photon_container.Photon.Types.{exited, is_serving, new_server_command}
use photon_container.Photondata.Layout.{data_at, old_at, fresh_at, temp_at}
use photon_container.Photondata.Migrator.{
  acquire, finish, replace_files, swap_in, migrate_by_replace, old_dir, unarchived_data_dir,
}
use photon_container.Photondata.Replacement.{Moved}
use photon_container.Photondata.Success.{IsReady, migrate_by_replace_succeeds}
use photon_container.Photondata.Types.{Migrator, migrating, migrated}
use photon_container.Updater.Parallel.{restart_photon_server}
use photon_container.World.{World, Env}
use photon_container.World.Frames.{
  Frame, Keeping, Keeping-raise, Keeping-wrapped, Keeping-bind, Keeping-ignored, Keeping-recover,
}
use photon_container.World.Rules.{
  Ensures, Ensures-bind, Ensures-wrapped, Ensures-weaken, Ensures-both,
}

-- The environment stays the same: its answers are given once and for all.
abbrev pub same_env : Frame
same_env = record {
  relation = λ w v. v.env ≡ w.env;
  refl_at = λ w. refl;
  trans_at = λ u v w h k. k ∙ h;
}

pub stop-env : Keeping same_env stop
unfolding stop
stop-env w = ground arith

pub rename-env : (p q : FilePath) → Keeping same_env (rename p q)
unfolding rename
rename-env p q w = ground arith

pub remove_all-env : (p : FilePath) → Keeping same_env (remove_all p)
unfolding remove_all
remove_all-env p w = ground arith

pub acquire-env : Keeping same_env acquire
unfolding acquire
acquire-env w = ground arith

pub finish-env : Keeping same_env finish
unfolding finish
finish-env w = ground arith

replace_files-env : (d t : FilePath) → Keeping same_env (replace_files d t)
unfolding replace_files swap_in
replace_files-env d t =
    Keeping-bind same_env _ _ (Keeping-wrapped same_env _ _ (rename-env d (old_dir d))) (λ _.
      Keeping-bind same_env _ _
        (Keeping-wrapped same_env _ _ (
          Keeping-recover same_env _ _ (rename-env (unarchived_data_dir t) d) (λ e.
            Keeping-bind same_env _ _ (Keeping-ignored same_env _ (rename-env (old_dir d) d))
              (λ _. Keeping-raise same_env _ _))))
        (λ _. Keeping-ignored same_env _ (remove_all-env (old_dir d))))

migrate_by_replace-env : (t : FilePath) → Keeping same_env (migrate_by_replace t)
unfolding migrate_by_replace
migrate_by_replace-env t w =
    Keeping-bind same_env _ _ (Keeping-wrapped same_env _ _ acquire-env)
      (λ _. Keeping-bind same_env _ _ (replace_files-env w.migrator.data_dir t) (λ _. finish-env)) w

-- The process that serves ends by itself when it is told to.
pub stop_exits :
    (w : World) (n : ℕ)
    → is_serving w.photon ≡ true
    → w.env.ending w.now ≡ exited n
    → Ensures
        (λ _ v. SameData w v × (v.env ≡ w.env) × (running v.photon ≡ true))
        (λ _ _. ⊥)
        (stop w)
unfolding stop running
stop_exits w n h e = ground (arith, h, e)

-- After such an end a start makes a process serve.
pub start_again :
    (w : World)
    → running w.photon ≡ true
    → w.env.fault w.now ≡ false
    → Ensures (λ _ v. SameData w v × (is_serving v.photon ≡ true)) (λ _ _. ⊥) (start w)
unfolding start running new_server_command
start_again w h f = ground (arith, h, f)

module _ (root : FilePath) (w : World) where
  still-IsReady : (v : World) → SameData w v → v.env ≡ w.env → IsReady root w → IsReady root v
  still-IsReady v s e ready = record {
    calm = λ n. ap (λ (x : Env). x.fault n) e ∙ ready.calm n;
    base = ap (λ (f : Files). is_dir (local root f [])) s.files ∙ ready.base;
    database = ready.database;
    in_place = ap (λ (f : Files). local root f data_at) s.files ∙ ready.in_place;
    aside = ap (λ (f : Files). local root f old_at) s.files ∙ ready.aside;
    unarchived = ready.unarchived;
    beside = ap (λ (f : Files). local root f fresh_at) s.files ∙ ready.beside;
  }

  abbrev Replaced : World → Type 0
  Replaced v =
      (v.migrator.state ≡ migrated)
      × Moved root fresh_at w data_at v
      × (running v.photon ≡ true)
      × (v.env ≡ w.env)

  migrate_by_replace-Replaced :
      w.migrator.data_dir ≡ root ++ data_at
      → w.migrator.state ≢ migrating
      → IsReady root w
      → (v : World) → SameData w v × (v.env ≡ w.env) × (running v.photon ≡ true)
      → Ensures (λ _. Replaced) (λ _ _. ⊥) (migrate_by_replace (root ++ temp_at) v)
  migrate_by_replace-Replaced placed free ready v h =
      Ensures-weaken
        (Ensures-both _
          (migrate_by_replace_succeeds root v
            (ap (λ (m : Migrator). m.data_dir) h.0.migrator ∙ placed)
            (λ busy. free (sym (ap (λ (m : Migrator). m.state) h.0.migrator) ∙ busy))
            (still-IsReady v h.0 h.1 ready))
          (migrate_by_replace-env (root ++ temp_at) v))
        (λ _ u k. (
          ap (λ (m : Migrator). m.state) k.0.0.0,
          (λ q. k.0.1 q ∙ ap (λ (f : Files). f (root ++ (fresh_at ++ q))) h.0.files),
          ap running k.0.0.1 ∙ h.2,
          k.1 ∙ h.1,
        ))
        (λ _ u k. k.0)

  -- `restartPhotonServer` of a migrator over the directory, in a state that is not migrating, with
  -- a server whose process serves and ends by itself when it is told to, succeeds if no call fails,
  -- the directory, the database and the unarchived one are there, and nothing is left where the old
  -- database is set aside: it reports no error, the state is migrated, what was unarchived stands
  -- where the database was, and a process serves.
  pub restart_succeeds :
      (n : ℕ)
      → w.migrator.data_dir ≡ root ++ data_at
      → w.migrator.state ≢ migrating
      → IsReady root w
      → is_serving w.photon ≡ true
      → w.env.ending w.now ≡ exited n
      → Ensures
          (λ _ v.
            (v.migrator.state ≡ migrated)
            × Moved root fresh_at w data_at v
            × (is_serving v.photon ≡ true))
          (λ _ _. ⊥)
          (restart_photon_server (root ++ temp_at) w)
  unfolding restart_photon_server
  restart_succeeds n placed free ready serves ends =
      Ensures-bind _ _ w (Ensures-wrapped _ _ w (stop_exits w n serves ends)) (λ _ v h.
        Ensures-bind {P = λ _. Replaced} _ _ v
          (Ensures-wrapped _ _ v (migrate_by_replace-Replaced placed free ready v h))
          (λ _ u k. Ensures-wrapped _ _ u (
            Ensures-weaken
              (start_again u k.2 (ap (λ (x : Env). x.fault u.now) k.3 ∙ ready.calm u.now))
              (λ _ x s. (
                ap (λ (m : Migrator). m.state) s.0.migrator ∙ k.0,
                (λ q. ap (λ (f : Files). f (root ++ (data_at ++ q))) s.0.files ∙ k.1 q),
                s.1,
              ))
              (λ _ x s. s))))
