-- ===== src/Cmd/Waiting.antt =====
-- cmd/photon-db-updater/main.go: when its wait ends, and what that tells.
use photon_container.Base.{
  ◌≡◌, ◌≢◌, refl, ap, ◌∙◌, String, Bool, true, false, Option, none, some, List, [], ◌∷◌, arith,
  str_eq, if◌then◌else◌,
}
use photon_container.Base.Time.{Time}
use photon_container.Client.Agent.{Agent, agent_net}
use photon_container.Client.Exchanges.{migrate_status_lem}
use photon_container.Client.Requests.{Net, Client, MigrateStatusResponse, migrate_status}
use photon_container.Cmd.PhotonDbUpdater.{
  Ended, still_waiting, ended, Wake, signalled, elapsed, polled, wait,
}
use photon_container.Photondata.Archive.{Archive}
use photon_container.Photondata.Migrator.{state}
use photon_container.Photondata.Types.{state_text, migrating, migrated}
use photon_container.Server.Handlers.{Answer}
use photon_container.Updater.Entry.{Updater}
use photon_container.World.{World, Result, ok, err}

module _ {S : Type 0} where
  abbrev pub has_signal : List (Wake S) → Bool
  has_signal [] = false
  has_signal (signalled ∷ rest) = true
  has_signal (elapsed f ∷ rest) = has_signal rest

  abbrev pub each_elapsed : List (S → S) → List (Wake S)
  each_elapsed [] = []
  each_elapsed (f ∷ rest) = elapsed f ∷ each_elapsed rest

  module _ (net : Net S) (c : Client) where
    polled_ends :
        (more : S → Ended × S) (r : Result (Option MigrateStatusResponse)) (t : S)
        → ((s : S) → (more s).0 ≢ still_waiting)
        → (polled net c more r t).0 ≢ still_waiting
    polled_ends more (err e) t h = ground arith
    polled_ends more (ok none) t h = ground arith
    polled_ends more (ok (some r)) t h = ground (arith, h t)

    -- The wait ends at the latest with the signal, whatever the server answers.
    pub wait_ends :
        (wakes : List (Wake S)) (s : S)
        → has_signal wakes ≡ true
        → (wait net c wakes s).0 ≢ still_waiting
    unfolding wait
    wait_ends [] s h = absurd (ground (arith, h))
    wait_ends (signalled ∷ rest) s h = ground arith
    wait_ends (elapsed f ∷ rest) s h =
        polled_ends (wait net c rest) (migrate_status net c (f s)).0 (migrate_status net c (f s)).1
          (λ t. wait_ends rest t h)

pub state_migrating :
    (w : World)
    → w.migrator.state ≡ migrating
    → ((state w).0.0 ≡ migrating) × ((state w).1.migrator.state ≡ migrating)
unfolding state
state_migrating w h = ground (arith, h)

pub state_migrated :
    (w : World)
    → w.migrator.state ≡ migrated
    → ((state w).0.0 ≡ migrated) × ((state w).1.migrator.state ≡ migrated)
unfolding state
state_migrated w h = ground (arith, h)

-- Each leaves an agent that is migrating in that state.
abbrev pub AllKeep : List (Agent → Agent) → Type 0
AllKeep [] = Unit {0}
AllKeep (f ∷ rest) =
    ((b : Agent) → b.world.migrator.state ≡ migrating → (f b).world.migrator.state ≡ migrating)
    × AllKeep rest

module _ (u : Updater) (archive : Archive) (metrics : World → Answer × World)
    (format : Time → String) (c : Client) where
  abbrev pub net : Net Agent
  net = agent_net u archive metrics format c.base_url

  -- A poll of the agent.
  pub wait-elapsed :
      (f : Agent → Agent) (rest : List (Wake Agent)) (a : Agent)
      → wait net c (elapsed f ∷ rest) a ≡ (
          if str_eq (state_text (state (f a).world).0.0) "migrated"
          then (ended (ok tt), record (f a) { world = (state (f a).world).1 })
          else wait net c rest (record (f a) { world = (state (f a).world).1 }))
  unfolding wait
  wait-elapsed f rest a = rw (migrate_status_lem u archive metrics format c (f a))

  pub wait_on :
      (f : Agent → Agent) (rest : List (Wake Agent)) (a : Agent)
      → (f a).world.migrator.state ≡ migrating
      → wait net c (elapsed f ∷ rest) a
        ≡ wait net c rest (record (f a) { world = (state (f a).world).1 })
  wait_on f rest a busy =
      wait-elapsed f rest a
      ∙ ap
          (λ s.
            if str_eq (state_text s) "migrated"
            then (ended (ok tt), record (f a) { world = (state (f a).world).1 })
            else wait net c rest (record (f a) { world = (state (f a).world).1 }))
          (state_migrating (f a).world busy).0

  pub wait_over :
      (f : Agent → Agent) (rest : List (Wake Agent)) (a : Agent)
      → (f a).world.migrator.state ≡ migrated
      → wait net c (elapsed f ∷ rest) a
        ≡ (ended (ok tt), record (f a) { world = (state (f a).world).1 })
  wait_over f rest a done =
      wait-elapsed f rest a
      ∙ ap
          (λ s.
            if str_eq (state_text s) "migrated"
            then (ended (ok tt), record (f a) { world = (state (f a).world).1 })
            else wait net c rest (record (f a) { world = (state (f a).world).1 }))
          (state_migrated (f a).world done).0

  -- While the agent's state stays migrating, whatever else the agent does, the wait does not end,
  -- however often it polls: no answer tells of a migration that has failed.
  pub wait_stuck :
      (works : List (Agent → Agent)) (a : Agent)
      → AllKeep works
      → a.world.migrator.state ≡ migrating
      → (wait net c (each_elapsed works) a).0 ≡ still_waiting
  unfolding wait
  wait_stuck [] a keep busy = refl
  wait_stuck (f ∷ rest) a keep busy =
      ap (λ (r : Ended × Agent). r.0) (wait_on f (each_elapsed rest) a (keep.0 a busy))
      ∙ wait_stuck rest (record (f a) { world = (state (f a).world).1 }) keep.1
          (state_migrating (f a).world (keep.0 a busy)).1
