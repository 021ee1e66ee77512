-- ===== src/Downloader/Download.antt =====
-- internal/downloader/downloader.go. MD5, with the hexadecimal encoding behind it, is a parameter;
-- what retryablehttp makes of a request, its retries done, is an answer of the environment. The
-- rate limits and the progress delay the reading and log, and change nothing else.
use photon_container.Base.{
  String, ◌<>◌, Bool, true, false, ◌==◌, Option, none, some, List, [], ◌∷◌, if◌then◌else◌, codes_eq,
}
use photon_container.Base.Time.{Time}
use photon_container.Downloader.Fields.{fields}
use photon_container.Os.Files.{FilePath, Bytes, Reader, Node, dir, file, parent}
use photon_container.Os.Calls.{stat, open_file, create_temp, copy, close, rename, remove}
use photon_container.Photondata.Archive.{Archive, url}
use photon_container.Updater.Dependencies
use photon_container.World.{
  M, Reply, bad_url, unreachable, reply, Method, failed, wrap, tick, ok, branch, pure, raise,
  wrapped, deferred, ignored, ◌>>=◌, ◌>>◌,
}

-- `d.client.Do` of a request of the method for the URL.
abbrev pub do_request : Method → String → M Reply
do_request method u w = (ok (w.env.fetch w.now method u), tick w)

-- The first field of the body, of two or more.
abbrev pub first_field : List Bytes → M Bytes
first_field [] = raise (failed "invalid md5sum format")
first_field (f ∷ []) = raise (failed "invalid md5sum format")
first_field (f ∷ g ∷ rest) = pure f

abbrev pub read_sum : Reply → M Bytes
read_sum bad_url = raise (wrap "failed to create request for md5sum" (failed "parse"))
read_sum unreachable = raise (wrap "falied to request md5sum" (failed "request"))
read_sum (reply status body _) =
    if status == 200
    then if body.broken
      then raise (wrap "failed to read md5sum" (failed "read"))
      else first_field (fields body.content)
    else raise (failed "failed to download md5sum")

-- `getMD5Sum`
unfoldable pub get_md5_sum : String → M Bytes
get_md5_sum archive_url = do r ← do_request Method.get (archive_url <> ".md5"); read_sum r

abbrev pub modified : Option Time → M Time
modified none = raise (
    wrap "downloader.Downloader.GetLastModified: failed to parse Last-Modified header"
      (failed "parse"))
modified (some t) = pure t

abbrev pub read_modified : Reply → M Time
read_modified bad_url =
    raise (wrap "downloader.Downloader.GetLastModified: failed to create request" (failed "parse"))
read_modified unreachable =
    raise (wrap "downloader.Downloader.GetLastModified: failed to request" (failed "request"))
read_modified (reply status _ last_modified) =
    if status == 200
    then modified last_modified
    else raise (failed "downloader.Downloader.GetLastModified: failed to check latest")

-- `GetLastModified`
unfoldable pub get_last_modified : Archive → M Time
get_last_modified archive = do r ← do_request Method.head (url archive); read_modified r

-- The deferred function of `Download`.
unfoldable pub drop_temp : FilePath → M (Unit {0})
drop_temp tmp = do ignored close; remove tmp

module _ (md5 : Bytes → Bytes) where
  abbrev pub sum_of : Reader → M Bytes
  sum_of r =
      if r.broken
      then raise (wrap "failed to calculate md5sum" (failed "read"))
      else pure (md5 r.content)

  -- `md5sumFile`
  unfoldable pub md5_sum_file : FilePath → M Bytes
  md5_sum_file p = do r ← wrapped "failed to open file" (open_file p); sum_of r

  unfoldable pub same_sum : FilePath → Bytes → Node → M Bool
  same_sum dest sum dir =
      raise (failed "downloader.Downloader.Download: destination is a directory")
  same_sum dest sum (file _ _) = do
    got ←
        wrapped "downloader.Downloader.Download: failed to calculate md5sum of existing file"
          (md5_sum_file dest)
    pure (codes_eq got sum)

  -- Whether the destination has the file already. Any error of `os.Stat` is taken for no.
  unfoldable pub already : FilePath → Bytes → M Bool
  already dest sum = branch (stat dest) (same_sum dest sum) (λ _. pure false)

  unfoldable pub place_verified : FilePath → FilePath → Bytes → Bytes → M (Unit {0})
  place_verified tmp dest sum got =
      if codes_eq got sum
      then wrapped "downloader.Downloader.Download: failed to rename temp file" (rename tmp dest)
      else raise (failed "downloader.Downloader.Download: md5sum mismatch")

  -- From the temporary file to its rename.
  unfoldable pub save : FilePath → Bytes → Reader → M (Unit {0})
  save dest sum body = do
    tmp ←
        wrapped "downloader.Downloader.Download: failed to create temp file"
          (create_temp (parent dest))
    deferred (drop_temp tmp) do
      wrapped "downloader.Downloader.Download: failed to write to temp file" (copy tmp body)
      wrapped "downloader.Downloader.Download: failed to close temp file" close
      got ← wrapped "downloader.Downloader.Download: failed to calculate md5sum" (md5_sum_file tmp)
      place_verified tmp dest sum got

  unfoldable pub save_reply : FilePath → Bytes → Reply → M (Unit {0})
  save_reply dest sum bad_url =
      raise (wrap "downloader.Downloader.Download: failed to create request" (failed "parse"))
  save_reply dest sum unreachable =
      raise (wrap "downloader.Downloader.Download: falied to request" (failed "request"))
  save_reply dest sum (reply status body _) =
      if status == 200
      then save dest sum body
      else raise (failed "downloader.Downloader.Download: failed to download")

  unfoldable pub fetch_missing : String → FilePath → Bytes → Bool → M (Unit {0})
  fetch_missing u dest sum true = pure tt
  fetch_missing u dest sum false = do r ← do_request Method.get u; save_reply dest sum r

  -- `Download`
  unfoldable pub download : Archive → FilePath → M (Unit {0})
  download archive dest = do
    sum ←
        wrapped "downloader.Downloader.Download: failed to verify md5sum"
          (get_md5_sum (url archive))
    done ← already dest sum
    fetch_missing (url archive) dest sum done

  abbrev pub downloader : Dependencies.Downloader
  downloader = record { download = download; get_last_modified = get_last_modified }
