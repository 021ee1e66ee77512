-- ===== src/Examples/Archives.antt =====
-- Archives of internal/unarchiver, unarchived and installed, at concrete data.
use photon_container.Base.{
  ◌≡◌, refl, subst, str_eq-append_right, ℕ, String, true, false, Option, none, some, List, [], ◌∷◌,
  ◌++◌, if◌then◌else◌, ◌<>◌, str_eq, arith,
}
use photon_container.Downloader.Fields.{fields}
use photon_container.Examples.{root, env, world, archive}
use photon_container.Os.Calls.{is_dir}
use photon_container.Os.Files.{FilePath, Bytes, dir, file, strip}
use photon_container.Os.Laws.{SameServices, local}
use photon_container.Os.Success.{whole}
use photon_container.Photon.Types.{exited, is_serving}
use photon_container.Photondata.Archive.{url}
use photon_container.Photondata.Layout.{data_at, temp_at}
use photon_container.Photondata.Types.{migrated}
use photon_container.Unarchiver.Contents.{unpack, empty_root}
use photon_container.Unarchiver.Extract.{
  Codec, Entry, TypeFlag, type_dir, type_reg, type_other, unarchive,
}
use photon_container.Unarchiver.Refinement.{IsUnpackable, unarchive_lem}
use photon_container.Unarchiver.Writes.{IsCalm}
use photon_container.Updater.EndToEnd.{wired, parallel_update_installs}
use photon_container.Updater.Fetched.{IsPublished, IsTidy}
use photon_container.Updater.Options.{get_archive, init_options}
use photon_container.Updater.Parallel.{download_and_update}
use photon_container.Updater.Sequential
use photon_container.Updater.SequentialEndToEnd.{wired_sequential, sequential_update_installs}
use photon_container.World.{World, Method, Reply, reply}
use photon_container.World.Rules.{Ensures}

-- The MD5 function of the examples is the text itself.
abbrev md5 : Bytes → Bytes
md5 b = b

abbrev entry : TypeFlag → List String → Bytes → Option Entry
entry f name b = some (record { name = name; typeflag = f; mod_time = 3; body = whole b })

-- The index is there twice, and the later one stays.
abbrev entries : List (Option Entry)
entries =
    entry type_dir ("." ∷ []) []
    ∷ entry type_dir ("photon_data" ∷ []) []
    ∷ none
    ∷ entry type_dir ("photon_data" ∷ "node_1" ∷ "" ∷ []) []
    ∷ entry type_reg ("photon_data" ∷ "node_1" ∷ "index" ∷ []) (1 ∷ [])
    ∷ entry type_other ("photon_data" ∷ "link" ∷ []) []
    ∷ entry type_reg ("photon_data" ∷ "node_1" ∷ "index" ∷ []) (2 ∷ [])
    ∷ []

abbrev codec : Codec
codec = record { bunzip2 = λ r. r; untar = λ _. record { entries = entries; broken = false } }

unpacked :
    (unpack [] empty_root entries [] ≡ some dir)
    × (unpack [] empty_root entries ("photon_data" ∷ "node_1" ∷ "index" ∷ [])
        ≡ some (file (2 ∷ []) 3))
    × (unpack [] empty_root entries ("photon_data" ∷ "link" ∷ []) ≡ none)
unfolding strip
unpacked = (refl, refl, refl)

abbrev by_url : ℕ → Method → String → Reply
by_url _ _ u =
    if str_eq u (url archive <> ".md5")
    then reply 200 (whole (97 ∷ 32 ∷ 32 ∷ 102 ∷ 10 ∷ [])) none
    else reply 200 (whole (97 ∷ [])) none

abbrev online : World
online = world (record (env [] (exited 143)) { fetch = by_url }) migrated

online-IsCalm : IsCalm online.env
online-IsCalm = record {
  no_fault = λ _. refl;
  first_drawn = λ _. "1";
  others_drawn = λ _. "2" ∷ [];
  draws = λ _. refl;
}

above_root : (p q : FilePath) → root ≡ p ++ q → is_dir (online.files p) ≡ true
unfolding strip
above_root [] q e = refl
above_root (s ∷ []) q e =
    let named : "photon" ≡ s = ground (arith, e) in
    subst (λ n. is_dir (online.files (n ∷ [])) ≡ true) named refl
above_root (s ∷ t ∷ p) q e = ground (arith, e)

good : IsUnpackable (codec.untar (whole (97 ∷ [])))
unfolding strip
good = record { unbroken = refl; fit = refl }

unarchive_lem_example :
    Ensures
      (λ _ v.
        SameServices online v
        × (local (root ++ temp_at) v.files ≡ unpack [] empty_root entries)
        × (v.files (root ++ data_at) ≡ online.files (root ++ data_at)))
      (λ _ _. ⊥)
      (unarchive codec (whole (97 ∷ [])) (root ++ temp_at) [] online)
unfolding strip
unarchive_lem_example =
    unarchive_lem codec [] (whole (97 ∷ [])) root "temp" online online-IsCalm above_root (λ q. refl)
      good (root ++ data_at) refl

online-IsPublished : IsPublished md5 (get_archive (init_options []) archive) (97 ∷ []) online.env
unfolding get_archive init_options fields
online-IsPublished = record {
  sums = 97 ∷ 32 ∷ 32 ∷ 102 ∷ 10 ∷ [];
  name = 102 ∷ [];
  others = [];
  listed = refl;
  sums_modified = none;
  told = λ _. refl;
  modified = none;
  sent = λ _. refl;
}

online-IsTidy : IsTidy root online
unfolding strip
online-IsTidy = record {
  inside = above_root;
  no_archive = refl;
  no_temp_file = λ s. ground (arith, str_eq-append_right "node_1" "tmp-" s refl);
  no_temp_dir = λ q. refl;
}

parallel_update_installs_example :
    Ensures
      (λ _ z.
        (z.migrator.state ≡ migrated)
        × ((q : FilePath)
            → z.files (root ++ (data_at ++ q))
              ≡ unpack [] empty_root entries ("photon_data" ∷ "node_1" ∷ q))
        × (is_serving z.photon ≡ true))
      (λ _ _. ⊥)
      (download_and_update (wired md5 codec root) archive [] online)
unfolding strip
parallel_update_installs_example =
    parallel_update_installs md5 codec root online online-IsCalm online-IsTidy archive [] (97 ∷ [])
      online-IsPublished refl (λ p. ground (arith, p)) refl 143 (λ _. refl) good refl dir refl refl

sequential_update_installs_example :
    Ensures
      (λ _ z.
        (z.migrator.state ≡ migrated)
        × ((q : FilePath)
            → z.files (root ++ (data_at ++ q))
              ≡ unpack [] empty_root entries ("photon_data" ∷ "node_1" ∷ q))
        × (is_serving z.photon ≡ true))
      (λ _ _. ⊥)
      (Sequential.download_and_update (wired_sequential md5 codec root) archive [] online)
unfolding strip init_options
sequential_update_installs_example =
    sequential_update_installs root online online-IsCalm online-IsTidy refl (λ p. ground (arith, p))
      refl 143 (λ _. refl) md5 codec archive [] (97 ∷ []) online-IsPublished good refl
