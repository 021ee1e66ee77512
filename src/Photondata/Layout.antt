-- ===== src/Photondata/Layout.antt =====
-- The directory that cmd/photon-agent/main.go gives the migrator and the updaters, as `root`, and
-- the paths below it that internal/photondata and internal/updater name.
use photon_container.Base.{◌≡◌, refl, ap, ◌∙◌, String, ◌<>◌, [], ◌∷◌, ◌++◌, append_assoc}
use photon_container.Os.Files.{FilePath, with_suffix}
use photon_container.Photondata.Migrator.{old_dir, unarchived_data_dir}

abbrev pub data_at : FilePath
data_at = "node_1" ∷ []

abbrev pub old_at : FilePath
old_at = "node_1.old" ∷ []

abbrev pub temp_at : FilePath
temp_at = "temp" ∷ []

abbrev pub fresh_at : FilePath
fresh_at = "temp" ∷ "photon_data" ∷ "node_1" ∷ []

abbrev pub archive_at : FilePath
archive_at = "photon-db.tar.bz2" ∷ []

with_suffix-append :
    (root : FilePath) (s e : String) → with_suffix (root ++ s ∷ []) e ≡ root ++ (s <> e) ∷ []
with_suffix-append [] s e = refl
with_suffix-append (a ∷ []) s e = refl
with_suffix-append (a ∷ b ∷ root) s e = ap (λ p. a ∷ p) (with_suffix-append (b ∷ root) s e)

pub old_dir-append : (root : FilePath) → old_dir (root ++ data_at) ≡ root ++ old_at
old_dir-append root = with_suffix-append root "node_1" ".old"

pub unarchived_data_dir-append :
    (root : FilePath) → unarchived_data_dir (root ++ temp_at) ≡ root ++ fresh_at
unarchived_data_dir-append root =
    append_assoc (root ++ temp_at) ("photon_data" ∷ []) data_at
    ∙ append_assoc root temp_at ("photon_data" ∷ data_at)
