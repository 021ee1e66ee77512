-- ===== src/Updater/Preparation.antt =====
-- internal/updater: how a step of an update that succeeded goes on, and what the steps before the
-- database is replaced leave.
use photon_container.Base.{◌≡◌, ap, subst, ◌∙◌, ◌++◌, true, List}
use photon_container.Os.Calls.{open_file}
use photon_container.Os.Files.{FilePath, Files, Reader}
use photon_container.Os.Laws.{SameServices, open_file_keeps}
use photon_container.Photon.Types.{is_serving}
use photon_container.Photondata.Archive.{Archive}
use photon_container.Photondata.Layout.{data_at, fresh_at, temp_at, archive_at}
use photon_container.Photondata.Replacement.{Moved, Carried, Carried-trans}
use photon_container.Photondata.Types.{migrated}
use photon_container.Unarchiver.Options.{UnarchiveOption}
use photon_container.Updater.Cleanup.{Beside, state_kept, serving_kept}
use photon_container.Updater.Dependencies.{Downloader, Unarchiver, IsLawful}
use photon_container.World.{World, Result, ok}
use photon_container.World.Rules.{Leaves, Leaves-world, Ensures-weaken}

carried {ℓ} :
    {A : Type ℓ} (P : World → Type 0) {m : Result A × World} {a : Result A} {z : World}
    → m ≡ (a, z)
    → Leaves P m
    → P z
carried P {m} e h = subst P (ap (λ k. k.1) e) (Leaves-world P m h)

opening : (root p : FilePath) (v : World) → Leaves (Carried root data_at v data_at) (open_file p v)
opening root p v = Ensures-weaken (open_file_keeps p v) (λ _. kept) (λ _. kept)
  where
    kept : (z : World) → SameServices v z × (z.files ≡ v.files) → Carried root data_at v data_at z
    kept z k = (k.0, λ q. ap (λ (f : Files). f (root ++ (data_at ++ q))) k.1)

module _ (root : FilePath) (y : World) where
  abbrev pub Succeeded : World → Type 0
  Succeeded z =
      (z.migrator.state ≡ migrated) × Moved root fresh_at y data_at z × (is_serving z.photon ≡ true)

  pub Succeeded-kept : (v z : World) → Beside root v z → Succeeded v → Succeeded z
  Succeeded-kept v z k h =
      (state_kept root k migrated h.0, (λ q. k.data_kept q ∙ h.1 q), serving_kept root k true h.2)

module _ (root : FilePath) (dl : Downloader) (ua : Unarchiver) (laws : IsLawful root dl ua)
    (archive : Archive) (r : Reader) (flags : List UnarchiveOption) (w v x y : World) where
  -- A download, the opening of its file and the unarchiving, one after the other.
  pub prepared-Carried :
      dl.download archive (root ++ archive_at) w ≡ (ok tt, v)
      → open_file (root ++ archive_at) v ≡ (ok r, x)
      → ua.unarchive r (root ++ temp_at) flags x ≡ (ok tt, y)
      → Carried root data_at w data_at y
  prepared-Carried downloaded opened unarchived =
      Carried-trans root data_at data_at data_at w x y
        (Carried-trans root data_at data_at data_at w v x
          (carried (λ (z : World). Carried root data_at w data_at z) downloaded
            (laws.download_keeps archive w))
          (carried _ opened (opening root (root ++ archive_at) v)))
        (carried _ unarchived (laws.unarchive_keeps r flags x))
