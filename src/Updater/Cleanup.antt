-- ===== src/Updater/Cleanup.antt =====
-- internal/updater: the calls of os.RemoveAll on the archive and on the temporary directory leave
-- the services and the database alone.
use photon_container.Base.{◌≡◌, refl, ap, ◌∙◌, ◌++◌, Bool, true, ◌⊎◌, inl, inr, List}
use photon_container.Os.Files.{Reader, FilePath, strip}
use photon_container.Os.Calls.{remove_all}
use photon_container.Os.Laws.{SameServices, SameServices-trans, remove_all-local}
use photon_container.World.{World}
use photon_container.World.Rules.{Leaves, Ensures-weaken}
use photon_container.Photondata.Layout.{data_at, old_at, temp_at, archive_at}
use photon_container.Photondata.Replacement.{Moved, Carried}
use photon_container.Photondata.Types.{Migrator, MigrationState}
use photon_container.Photon.Types.{is_serving, was_killed}
use photon_container.Unarchiver.Options.{UnarchiveOption}
use photon_container.Updater.Dependencies.{Unarchiver, Installed}

module _ (root : FilePath) where
  -- The services, the database and the one set aside are the same.
  pub record Beside (w v : World) : Type 0 where
    pub services : SameServices w v
    pub data_kept : Moved root data_at w data_at v
    pub old_kept : Moved root old_at w old_at v

  pub temp_cleanup : (w : World) → Leaves (Beside w) (remove_all (root ++ temp_at) w)
  unfolding strip
  temp_cleanup w =
      Ensures-weaken (remove_all-local root temp_at w)
        (λ _ v h. record {
          services = h.0;
          data_kept = λ q. ap (λ f. f (data_at ++ q)) h.1;
          old_kept = λ q. ap (λ f. f (old_at ++ q)) h.1;
        })
        (λ _ v h. record {
          services = h.0;
          data_kept = λ q. h.1 (data_at ++ q) refl;
          old_kept = λ q. h.1 (old_at ++ q) refl;
        })

  pub archive_cleanup : (w : World) → Leaves (Beside w) (remove_all (root ++ archive_at) w)
  unfolding strip
  archive_cleanup w =
      Ensures-weaken (remove_all-local root archive_at w)
        (λ _ v h. record {
          services = h.0;
          data_kept = λ q. ap (λ f. f (data_at ++ q)) h.1;
          old_kept = λ q. ap (λ f. f (old_at ++ q)) h.1;
        })
        (λ _ v h. record {
          services = h.0;
          data_kept = λ q. h.1 (data_at ++ q) refl;
          old_kept = λ q. h.1 (old_at ++ q) refl;
        })

  module _ {v u : World} (k : Beside v u) where
    pub state_kept : (s : MigrationState) → v.migrator.state ≡ s → u.migrator.state ≡ s
    state_kept s h = ap (λ (m : Migrator). m.state) k.services.migrator ∙ h

    pub serving_kept : (b : Bool) → is_serving v.photon ≡ b → is_serving u.photon ≡ b
    serving_kept b h = ap is_serving k.services.photon ∙ h

    pub running_kept :
        (is_serving v.photon ≡ true) ⊎ (was_killed v.photon ≡ true)
        → (is_serving u.photon ≡ true) ⊎ (was_killed u.photon ≡ true)
    running_kept (inl h) = inl (serving_kept true h)
    running_kept (inr h) = inr (ap was_killed k.services.photon ∙ h)

    pub Installed-kept :
        {ua : Unarchiver} {options : List UnarchiveOption} {source : Reader → Type 0}
        → Installed root ua options source v
        → Installed root ua options source u
    Installed-kept h = record {
      archive = h.archive;
      sourced = h.sourced;
      before = h.before;
      after = h.after;
      unarchived = h.unarchived;
      in_place = λ q. k.data_kept q ∙ h.in_place q;
    }

    pub Carried-kept :
        (w : World) → Carried root data_at w data_at v → Carried root data_at w data_at u
    Carried-kept w h = (SameServices-trans w v u h.0 k.services, λ q. k.data_kept q ∙ h.1 q)
