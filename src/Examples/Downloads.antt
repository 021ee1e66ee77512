-- ===== src/Examples/Downloads.antt =====
-- Downloads of internal/downloader and an archive of internal/unarchiver, run, and theorems at
-- concrete data. The MD5 function of the examples is the text itself.
use photon_container.Base.{
  ◌≡◌, refl, ℕ, String, false, Option, none, some, List, [], ◌∷◌, ◌++◌, if◌then◌else◌, ◌==◌, ◌<>◌,
  str_eq,
}
use photon_container.Examples.{root, env, world, archive}
use photon_container.Downloader.Download.{
  download, get_md5_sum, already, same_sum, md5_sum_file, fetch_missing, save_reply, save,
  place_verified, drop_temp,
}
use photon_container.Downloader.Fields.{fields}
use photon_container.Base.Time.{Time}
use photon_container.Downloader.Success.{download_succeeds}
use photon_container.Downloader.Verified.{download_lem}
use photon_container.Downloader.Sums.{HasSum}
use photon_container.Os.Calls.{stat, open_file, rename, remove, create_temp, write, copy, close}
use photon_container.Os.Files.{FilePath, Bytes, Node, Reader, file, strip}
use photon_container.Os.Laws.{SameServices}
use photon_container.Photon.Types.{exited}
use photon_container.Photondata.Archive.{url}
use photon_container.Photondata.Layout.{data_at, temp_at}
use photon_container.Photondata.Replacement.{Carried}
use photon_container.Photondata.Types.{migrated}
use photon_container.Unarchiver.Extract.{Codec, Tar, Entry, type_dir, type_reg, unarchive}
use photon_container.Updater.Wired.{wired-Carried}
use photon_container.World.{
  World, Result, Reply, reply, Method, ok, wrapped, deferred, ignored, branch, ◌>>=◌,
}
use photon_container.World.Rules.{Ensures, Leaves}

abbrev md5 : Bytes → Bytes
md5 b = b

-- The server states the sum "97" of the first request, and sends the byte 97.
abbrev replies : ℕ → Method → String → Reply
replies n _ _ =
    if n == 0
    then reply 200 (record { content = 97 ∷ 32 ∷ 32 ∷ 102 ∷ 10 ∷ []; broken = false }) none
    else reply 200 (record { content = 97 ∷ []; broken = false }) none

abbrev online : World
online = world (record (env [] (exited 143)) { fetch = replies }) migrated

abbrev target : FilePath
target = root ++ "photon-db.tar.bz2" ∷ []

abbrev seen : Result (Unit {0}) × World → Result (Unit {0}) × Option Node × Option Node
seen (r, w) = (r, w.files target, w.files (root ++ "tmp-1" ∷ []))

downloaded : seen (download md5 archive target online) ≡ (ok tt, some (file (97 ∷ []) 5), none)
unfolding download get_md5_sum fields already same_sum fetch_missing save_reply save place_verified
    md5_sum_file drop_temp stat open_file rename remove create_temp write copy close strip wrapped
    deferred ignored branch ◌>>=◌
downloaded = refl

download_lem_example :
    Ensures
      (λ _ v.
        SameServices online v
        × ((sum : Bytes) × ((get_md5_sum (url archive) online).0 ≡ ok sum)
            × HasSum md5 target sum v))
      (λ _ v. SameServices online v × (v.files target ≡ online.files target))
      (download md5 archive target online)
download_lem_example = download_lem md5 root "photon-db.tar.bz2" refl archive online

-- A server that always answers the same.
abbrev by_url : ℕ → Method → String → Reply
by_url _ _ u =
    if str_eq u (url archive <> ".md5")
    then reply 200 (record { content = 97 ∷ 32 ∷ 32 ∷ 102 ∷ 10 ∷ []; broken = false }) none
    else reply 200 (record { content = 97 ∷ []; broken = false }) none

abbrev steady : World
steady = world (record (env [] (exited 143)) { fetch = by_url }) migrated

download_succeeds_example :
    Ensures
      (λ _ v. SameServices steady v × ((t : Time) × (v.files target ≡ some (file (97 ∷ []) t))))
      (λ _ _. ⊥)
      (download md5 archive target steady)
unfolding strip fields
download_succeeds_example =
    download_succeeds md5 root "photon-db.tar.bz2" refl archive steady (λ _. refl) (97 ∷ [])
      (97 ∷ 32 ∷ 32 ∷ 102 ∷ 10 ∷ []) (102 ∷ []) [] none none (λ _. refl) refl (λ _. refl) "1"
      ("2" ∷ []) refl refl refl refl

abbrev entries : List (Option Entry)
entries =
    some (record {
      name = "photon_data" ∷ [];
      typeflag = type_dir;
      mod_time = 3;
      body = record { content = []; broken = false };
    })
    ∷ none
    ∷ some (record {
      name = "photon_data" ∷ "index" ∷ [];
      typeflag = type_reg;
      mod_time = 3;
      body = record { content = 1 ∷ []; broken = false };
    })
    ∷ []

-- A decoder that reads a name with ".." in nothing.
abbrev tar_of : Bytes → Tar
tar_of [] = record {
  entries =
      some (record {
        name = ".." ∷ "photon_data" ∷ [];
        typeflag = type_dir;
        mod_time = 3;
        body = record { content = []; broken = false };
      })
      ∷ [];
  broken = false;
}
tar_of (_ ∷ _) = record { entries = entries; broken = false }

abbrev codec : Codec
codec = record { bunzip2 = λ r. r; untar = λ r. tar_of r.content }

abbrev archive_file : Reader
archive_file = record { content = 97 ∷ []; broken = false }

wired-Carried_example :
    Leaves (Carried root data_at online data_at) (download md5 archive target online)
    × Leaves
        (Carried root data_at steady data_at)
        (unarchive codec archive_file (root ++ temp_at) [] steady)
wired-Carried_example = wired-Carried md5 codec root archive archive_file [] refl online steady
