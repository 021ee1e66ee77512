-- ===== src/Cmd/SequentialWait.antt =====
-- cmd/photon-db-updater/main.go with `-wait`, at an agent with the sequential strategy.
use photon_container.Base.{
  ◌≡◌, refl, sym, subst, ap, ◌∙◌, ◌⊎◌, inl, inr, String, Bool, true, false, some, List, [], ◌∷◌,
  ◌++◌, arith,
}
use photon_container.Base.Time.{Time}
use photon_container.Client.Agent.{Agent, agent_net, run_next, next_of}
use photon_container.Client.Options.{UploadOption}
use photon_container.Client.Requests.{Client, Sides, migrate_start}
use photon_container.Client.SequentialUploads.{
  Accepted, in_use, agent_updater, rest_of_update, upload-Accepted,
}
use photon_container.Client.Uploads.{whole, asked}
use photon_container.Cmd.PhotonDbUpdater.{Wake, Ended, ended, elapsed, wait}
use photon_container.Cmd.Waiting.{wait_on, wait_over, state_migrating}
use photon_container.Os.Files.{FilePath, Files, Bytes, file}
use photon_container.Photon.Types.{is_serving}
use photon_container.Photondata.Archive.{Archive}
use photon_container.Photondata.Layout.{data_at, fresh_at, temp_at}
use photon_container.Photondata.Migrator.{state}
use photon_container.Photondata.Types.{Migrator, migrating, migrated}
use photon_container.Server.Handlers.{Answer}
use photon_container.Updater.AsyncRuns.{Given}
use photon_container.Updater.Dependencies.{IsLawful, Downloader, Installed}
use photon_container.Updater.Sequential.{SequentialUpdater}
use photon_container.Updater.Entry.{Updater}
use photon_container.Updater.LateRuns.{Outcome, rest_of_update_lem}
use photon_container.World.{World, M, Result, ok, err}
use photon_container.World.Rules.{Leaves-world}

-- What reading the state leaves alone.
state_keeps :
    (w : World)
    → ((state w).1.files ≡ w.files)
      × ((state w).1.photon ≡ w.photon)
      × ((state w).1.migrator.data_dir ≡ w.migrator.data_dir)
unfolding state
state_keeps w = ground arith

module _ (p : SequentialUpdater) (dl : Downloader) (archive : Archive)
    (metrics : World → Answer × World) (format : Time → String) (c : Client) (a : Agent)
    (options : List UploadOption) (b : Bytes) where
  abbrev New : World → Type 0
  New v =
      Installed p.photon_data_dir p.unarchiver
        (asked (in_use p dl archive metrics format c a options b)) (Given (whole b)) v

  abbrev go : M (Unit {0})
  go = rest_of_update p dl archive metrics format c a options b

  -- The unarchiver has run, and the agent's goroutine has not.
  record Pending (t : Agent) : Type 0 where
    one : t.goroutines ≡ go ∷ []
    placed : t.world.migrator.data_dir ≡ p.photon_data_dir ++ data_at
    busy : t.world.migrator.state ≡ migrating
    off : is_serving t.world.photon ≡ false
    before : World
    after : World
    unarchived :
        p.unarchiver.unarchive
          (whole b)
          (p.photon_data_dir ++ temp_at)
          (asked (in_use p dl archive metrics format c a options b))
          before
        ≡ (ok tt, after)
    same : t.world.files ≡ after.files

  -- The goroutine has ended.
  record Over (t : Agent) : Type 0 where
    none_left : t.goroutines ≡ []
    outcome :
        (t.world.migrator.state ≡ migrating) ⊎ ((t.world.migrator.state ≡ migrated) × New t.world)

  abbrev observed : Agent → Agent
  observed t = record t { world = (state t.world).1 }

  New-files : (v x : World) → x.files ≡ v.files → New v → New x
  New-files v x same h = record {
    archive = h.archive;
    sourced = h.sourced;
    before = h.before;
    after = h.after;
    unarchived = h.unarchived;
    in_place = λ q. ap (λ (f : Files). f (p.photon_data_dir ++ (data_at ++ q))) same ∙ h.in_place q;
  }

  observed-Pending : (t : Agent) → Pending t → Pending (observed t)
  observed-Pending t h = record {
    one = h.one;
    placed = (state_keeps t.world).2 ∙ h.placed;
    busy = (state_migrating t.world h.busy).1;
    off = ap is_serving (state_keeps t.world).1 ∙ h.off;
    before = h.before;
    after = h.after;
    unarchived = h.unarchived;
    same = (state_keeps t.world).0 ∙ h.same;
  }

  ended-Over :
      (t : Agent) (h : Pending t) (v : World)
      → Outcome p t.world h.placed h.busy h.off v
      → Over (record { world = v; goroutines = [] })
  ended-Over t h v (inl s) = record { none_left = refl; outcome = inl s }
  ended-Over t h v (inr (s, m)) = record {
    none_left = refl;
    outcome = inr (
      s,
      record {
        archive = whole b;
        sourced = refl;
        before = h.before;
        after = h.after;
        unarchived = h.unarchived;
        in_place = λ q. m q ∙ ap (λ (f : Files). f (p.photon_data_dir ++ (fresh_at ++ q))) h.same;
      },
    );
  }

  run_next-Pending : (t : Agent) → Pending t → Over (run_next t)
  unfolding run_next
  run_next-Pending t h = subst Over (sym (ap (λ gs. next_of gs t) h.one)) (
      ended-Over t h (go t.world).1 (
        Leaves-world (Outcome p t.world h.placed h.busy h.off) (go t.world)
          (rest_of_update_lem p t.world h.placed h.busy h.off)))

  run_next-Over : (t : Agent) → Over t → Over (run_next t)
  unfolding run_next
  run_next-Over t h = subst Over (sym (ap (λ gs. next_of gs t) h.none_left)) h

  abbrev Phase : Agent → Type 0
  Phase t = Pending t ⊎ Over t

  -- What the agent does between two polls.
  abbrev pub work : Bool → Agent → Agent
  work true t = run_next t
  work false t = t

  work-Phase : (runs : Bool) (t : Agent) → Phase t → Phase (work runs t)
  work-Phase true t (inl h) = inr (run_next-Pending t h)
  work-Phase true t (inr h) = inr (run_next-Over t h)
  work-Phase false t h = h

  abbrev pub works : List Bool → List (Wake Agent)
  works [] = []
  works (runs ∷ rest) = elapsed (work runs) ∷ works rest

  abbrev u : Updater
  u = agent_updater p dl archive metrics format c a options b

  abbrev Done : Ended × Agent → Type 0
  Done (e, z) = e ≡ ended (ok tt) → New z.world

  poll-Done :
      (f : Agent → Agent) (rest : List (Wake Agent)) (t : Agent)
      → Phase (f t)
      → ((x : Agent)
          → Phase x
          → Done (wait (agent_net u archive metrics format c.base_url) c rest x))
      → Done (wait (agent_net u archive metrics format c.base_url) c (elapsed f ∷ rest) t)
  poll-Done f rest t (inl h) ih =
      subst Done (sym (wait_on u archive metrics format c f rest t h.busy))
        (ih (observed (f t)) (inl (observed-Pending (f t) h)))
  poll-Done f rest t (inr h) ih = over h.outcome
    where
      over :
          ((f t).world.migrator.state ≡ migrating)
            ⊎ (((f t).world.migrator.state ≡ migrated) × New (f t).world)
          → Done (wait (agent_net u archive metrics format c.base_url) c (elapsed f ∷ rest) t)
      over (inl s) = subst Done (sym (wait_on u archive metrics format c f rest t s)) (
          ih (observed (f t)) (
            inr (record {
              none_left = h.none_left;
              outcome = inl (state_migrating (f t).world s).1;
            })))
      over (inr (s, m)) =
          subst Done (sym (wait_over u archive metrics format c f rest t s))
            (λ _. New-files (f t).world (state (f t).world).1 (state_keeps (f t).world).0 m)

  wait-Done :
      (runs : List Bool) (t : Agent)
      → Phase t
      → Done (wait (agent_net u archive metrics format c.base_url) c (works runs) t)
  unfolding wait
  wait-Done [] t h = λ e. absurd (ground (arith, e))
  wait-Done (r ∷ rest) t h =
      poll-Done (work r) (works rest) t (work-Phase r t h) (λ x k. wait-Done rest x k)

  Accepted-Pending :
      a.goroutines ≡ []
      → a.world.migrator.data_dir ≡ p.photon_data_dir ++ data_at
      → (r : Result (Unit {0}) × Sides Agent) → Accepted p dl archive metrics format c a options b r
      → r.0 ≡ ok tt
      → Pending r.1.1
  Accepted-Pending idle placed (ok _, (_, t)) h e = record {
    one = h.0 ∙ ap (λ gs. gs ++ go ∷ []) idle;
    placed = ap (λ (m : Migrator). m.data_dir) h.1.0 ∙ placed;
    busy = ap (λ (m : Migrator). m.state) h.1.0;
    off = h.1.1;
    before = h.1.2.0;
    after = t.world;
    unarchived = h.1.2.1;
    same = refl;
  }
  Accepted-Pending idle placed (err _, (_, t)) h e = cc

  abbrev pub sent : FilePath → World → Result (Unit {0}) × Sides Agent
  sent path v = migrate_start (agent_net u archive metrics format c.base_url) c path options (v, a)

  -- With the sequential strategy the wait tells the truth. After an upload, not forced, of a file
  -- that is there, which `MigrateStart` reports no error of, to an agent with no other goroutine,
  -- lawful dependencies and a migrator over the same directory: however often the program polls,
  -- and between whichever polls the goroutine of the agent runs, if the wait ends without an error
  -- then the database in place is the one that was unarchived from the bytes of the file, taken for
  -- not compressed exactly if the client says so.
  pub sequential_wait :
      IsLawful p.photon_data_dir p.downloader p.unarchiver
      → a.world.migrator.data_dir ≡ p.photon_data_dir ++ data_at
      → (in_use p dl archive metrics format c a options b).force_update ≡ false
      → a.goroutines ≡ []
      → (path : FilePath) (t : Time) (v : World) (runs : List Bool) → v.files path ≡ some (file b t)
      → (sent path v).0 ≡ ok tt
      → (wait (agent_net u archive metrics format c.base_url) c (works runs) (sent path v).1.1).0
        ≡ ended (ok tt)
      → Installed p.photon_data_dir p.unarchiver
          (asked (in_use p dl archive metrics format c a options b))
          (Given (whole b))
          (wait
            (agent_net u archive metrics format c.base_url)
            c
            (works runs)
            (sent path v).1.1).1.world
  sequential_wait laws placed free idle path t v runs found accepted over =
      wait-Done runs (sent path v).1.1
        (inl (
          Accepted-Pending idle placed (sent path v)
            (upload-Accepted p dl archive metrics format c a options b laws placed free path t v
              found)
            accepted))
        over
