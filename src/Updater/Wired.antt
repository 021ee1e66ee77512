-- ===== src/Updater/Wired.antt =====
-- cmd/photon-agent/main.go gives the updaters the downloader and the unarchiver of this program:
-- these meet what the updaters ask of theirs.
use photon_container.Base.{
  ◌≡◌, refl, sym, subst, ap, ◌∙◌, List, [], Bool-cases, if◌then◌else◌, true, some, ◌++◌, arith, inl,
  inr,
}
use photon_container.Base.Time.{Time}
use photon_container.Downloader.Download.{download, downloader, get_md5_sum}
use photon_container.Downloader.Verified.{download_lem}
use photon_container.Downloader.Sums.{HasSum}
use photon_container.Os.Calls.{open_file}
use photon_container.Photondata.Archive.{Archive, url}
use photon_container.Photondata.Layout.{data_at, temp_at, archive_at}
use photon_container.World.{World, Env, ok}
use photon_container.World.Rules.{Ensures-value, Leaves}
use photon_container.Photondata.Replacement.{Carried}
use photon_container.Unarchiver.Options.{UnarchiveOption, runtime_option}
use photon_container.Downloader.Frame.{download-Carried}
use photon_container.Os.Files.{FilePath, Bytes, Reader, file}
use photon_container.Unarchiver.Extract.{
  Codec, Tar, decoded, unarchive, unarchive_into, prepare, require_dir, clean_up,
}
use photon_container.Unarchiver.Frame.{all_plain}
use photon_container.Unarchiver.Lawful.{unarchive-Carried}
use photon_container.Updater.Dependencies.{Unarchiver, IsLawful, IsDownloaded}

abbrev pub unarchiver : Codec → Unarchiver
unarchiver codec = record { unarchive = unarchive codec }

-- A download of the agent leaves the database and the services alone, and so does the unarchiving of
-- an archive, whether they fail or not, for every data directory, every MD5 function and every
-- decoder, if no name that the decoder reads in that archive has ".." in it.
pub wired-Carried :
    (md5 : Bytes → Bytes) (codec : Codec) (root : FilePath) (archive : Archive) (r : Reader)
    (options : List UnarchiveOption)
    → all_plain (decoded codec options r).entries ≡ true
    → (v w : World)
    → Leaves (Carried root data_at v data_at) (download md5 archive (root ++ archive_at) v)
      × Leaves (Carried root data_at w data_at) (unarchive codec r (root ++ temp_at) options w)
wired-Carried md5 codec root archive r options plain v w =
    (download-Carried md5 root archive v, unarchive-Carried codec root r options plain w)

-- A decoder that refuses an archive with a name that leads upwards, and else is the given one.
abbrev guard : Tar → Tar
guard t = if all_plain t.entries then t else record { entries = []; broken = true }

abbrev pub guarded : Codec → Codec
guarded codec = record { bunzip2 = codec.bunzip2; untar = λ r. guard (codec.untar r) }

guard-plain : (t : Tar) → all_plain (guard t).entries ≡ true
guard-plain t = elim (Bool-cases (all_plain t.entries)) [ inl e ↦ rw e e | inr e ↦ rw e refl ]

pub guarded-IsLawful :
    (md5 : Bytes → Bytes) (codec : Codec) (root : FilePath)
    → IsLawful root (downloader md5) (unarchiver (guarded codec))
guarded-IsLawful md5 codec root = record {
  download_keeps = download-Carried md5 root;
  unarchive_keeps = λ r options w.
      unarchive-Carried (guarded codec) root r options
        (guard-plain
          (codec.untar (if (runtime_option options).no_compression then r else codec.bunzip2 r)))
        w;
}

-- The guard is not seen where no name leads upwards.
pub unarchive-guarded :
    (codec : Codec) (r : Reader) (dest : FilePath) (options : List UnarchiveOption)
    → all_plain (decoded codec options r).entries ≡ true
    → unarchive (guarded codec) r dest options ≡ unarchive codec r dest options
unfolding unarchive unarchive_into prepare require_dir clean_up
unarchive-guarded codec r dest options plain = rw plain refl

-- The servers of the environment state the MD5 sum for the URL of the archive, when they are asked.
abbrev pub States : Env → Archive → Bytes → Type 0
States e archive sum = (w : World) × (w.env ≡ e) × ((get_md5_sum (url archive) w).0 ≡ ok sum)

read_whole :
    (p : FilePath) (b : Bytes) (t : Time) (r : Reader) (w : World)
    → w.files p ≡ some (file b t)
    → (open_file p w).0 ≡ ok r
    → b ≡ r.content
unfolding open_file
read_whole p b t r w stored opened = ground (arith, stored, opened)

-- What is read from a download of the program's downloader has the MD5 sum that the servers of the
-- environment state for the URL of the archive.
pub IsDownloaded-States :
    (md5 : Bytes → Bytes) (root : FilePath) (archive : Archive) (e : Env) (r : Reader)
    → IsDownloaded root (downloader md5) archive e r
    → States e archive (md5 r.content)
IsDownloaded-States md5 root archive e r h =
    let done =
      Ensures-value (download md5 archive (root ++ archive_at) h.before) tt
        (download_lem md5 root "photon-db.tar.bz2" refl archive h.before)
        (ap (λ x. x.0) h.downloaded) in
    let (b, t, stored, same) =
      subst (λ v. HasSum md5 (root ++ archive_at) done.1.0 v) (ap (λ x. x.1) h.downloaded)
        done.1.2 in
    (
      h.before,
      h.asked,
      done.1.1
          ∙ ap ok
              (sym same ∙ ap md5 (read_whole (root ++ archive_at) b t r h.after stored h.opened)),
    )
