-- ===== src/Downloader/Frame.antt =====
-- internal/downloader/downloader.go: what `Download` leaves alone.
use photon_container.Base.{
  ◌≡◌, refl, ◌≢◌, String, none, some, List, [], ◌∷◌, ◌++◌, true, false, Bool, subst, sym, arith,
  codes_eq, ◌==◌, ◌<>◌,
}
use photon_container.Downloader.Download.{
  download, get_md5_sum, already, same_sum, fetch_missing, save_reply, save, place_verified,
  drop_temp, md5_sum_file, do_request, read_sum, first_field,
}
use photon_container.Downloader.Fields.{fields}
use photon_container.Os.Calls.{temp_name}
use photon_container.Os.Files.{
  FilePath, Bytes, Reader, Node, dir, file, parent, parent-append, strip, strip-append_left,
}
use photon_container.Os.Frames.{
  at, IsTemp, stat-At, open_file-At, close-At, copy-At, remove-At, rename-At, create_temp-At,
  strip-temp_name,
}
use photon_container.Photondata.Layout.{data_at, archive_at}
use photon_container.Photondata.Replacement.{Carried, Carried-At}
use photon_container.Photondata.Archive.{Archive, url}
use photon_container.World.{World, Method, Reply, bad_url, unreachable, reply}
use photon_container.World.Rules.{Leaves, Ensures-wrapped}
use photon_container.World.Frames.{
  Keeping, Keeping-pure, Keeping-if, Keeping-branch, Keeping-raise, Keeping-wrapped, Keeping-bind,
  Keeping-bind_on, Keeping-ignored, Keeping-deferred,
}

pub not_here : (t z : FilePath) → strip t z ≡ none → strip t z ≢ some []
not_here t z h = ground (arith, h)

module _ (z : FilePath) where
  pub do_request-At : (method : Method) (u : String) → Keeping (at z) (do_request method u)
  do_request-At method u w = ground arith

  first_field-At : (fs : List Bytes) → Keeping (at z) (first_field fs)
  first_field-At fs w = ground arith

  read_sum-At : (r : Reply) → Keeping (at z) (read_sum r)
  read_sum-At bad_url = Keeping-raise (at z) _ _
  read_sum-At unreachable = Keeping-raise (at z) _ _
  read_sum-At (reply status body _) =
      Keeping-if (at z) (status == 200) _ _
        (Keeping-if (at z) body.broken _ _ (Keeping-raise (at z) _ _)
          (first_field-At (fields body.content)))
        (Keeping-raise (at z) _ _)

  pub get_md5_sum-At : (u : String) → Keeping (at z) (get_md5_sum u)
  unfolding get_md5_sum
  get_md5_sum-At u = Keeping-bind (at z) _ _ (do_request-At Method.get (u <> ".md5")) read_sum-At

  pub drop_temp-At : (t : FilePath) → strip t z ≡ none → Keeping (at z) (drop_temp t)
  unfolding drop_temp
  drop_temp-At t h =
      Keeping-bind (at z) _ _ (Keeping-ignored (at z) _ (close-At z))
        (λ _. remove-At z t (not_here t z h))

  module _ (md5 : Bytes → Bytes) where
    pub md5_sum_file-At : (p : FilePath) → Keeping (at z) (md5_sum_file md5 p)
    unfolding md5_sum_file
    md5_sum_file-At p =
        Keeping-bind (at z) _ _ (Keeping-wrapped (at z) _ _ (open_file-At z p))
          (λ r. Keeping-if (at z) r.broken _ _ (Keeping-raise (at z) _ _) (Keeping-pure (at z) _))

    same_sum-At :
        (dest : FilePath) (sum : Bytes) (n : Node) → Keeping (at z) (same_sum md5 dest sum n)
    unfolding same_sum
    same_sum-At dest sum dir = Keeping-raise (at z) _ _
    same_sum-At dest sum (file _ _) =
        Keeping-bind (at z) _ _ (Keeping-wrapped (at z) _ _ (md5_sum_file-At dest))
          (λ got. Keeping-pure (at z) _)

    already-At : (dest : FilePath) (sum : Bytes) → Keeping (at z) (already md5 dest sum)
    unfolding already
    already-At dest sum =
        Keeping-branch (at z) _ _ _ (stat-At z dest) (same_sum-At dest sum)
          (λ _. Keeping-pure (at z) _)

    module _ (dest : FilePath) (away : strip dest z ≡ none)
        (temps_away : (s : String) → strip (parent dest ++ temp_name s ∷ []) z ≡ none) where
      temp_away : (t : FilePath) → IsTemp (parent dest) t → strip t z ≡ none
      temp_away t h = subst (λ p. strip p z ≡ none) (sym h.1) (temps_away h.0)

      place_verified-At :
          (t : FilePath) (sum got : Bytes)
          → strip t z ≡ none
          → Keeping (at z) (place_verified md5 t dest sum got)
      unfolding place_verified
      place_verified-At t sum got h =
          Keeping-if (at z) (codes_eq got sum) _ _
            (Keeping-wrapped (at z) _ _ (rename-At z t dest h away)) (Keeping-raise (at z) _ _)

      save-At : (sum : Bytes) (body : Reader) → Keeping (at z) (save md5 dest sum body)
      unfolding save
      save-At sum body =
          Keeping-bind_on (at z) {P = IsTemp (parent dest)} _ _
            (λ w. Ensures-wrapped _ _ w (
              create_temp-At z (parent dest)
                (λ s. not_here (parent dest ++ temp_name s ∷ []) z (temps_away s)) w))
            (λ t h. Keeping-deferred (at z) _ _ (drop_temp-At t (temp_away t h)) (
              Keeping-bind (at z) _ _
                (Keeping-wrapped (at z) _ _ (copy-At z t (not_here t z (temp_away t h)) body))
                (λ _. Keeping-bind (at z) _ _ (Keeping-wrapped (at z) _ _ (close-At z)) (λ _.
                  Keeping-bind (at z) _ _ (Keeping-wrapped (at z) _ _ (md5_sum_file-At t))
                    (λ got. place_verified-At t sum got (temp_away t h))))))

      save_reply-At : (sum : Bytes) (r : Reply) → Keeping (at z) (save_reply md5 dest sum r)
      unfolding save_reply
      save_reply-At sum bad_url = Keeping-raise (at z) _ _
      save_reply-At sum unreachable = Keeping-raise (at z) _ _
      save_reply-At sum (reply status body _) =
          Keeping-if (at z) (status == 200) _ _ (save-At sum body) (Keeping-raise (at z) _ _)

      pub fetch_missing-At :
          (u : String) (sum : Bytes) (done : Bool)
          → Keeping (at z) (fetch_missing md5 u dest sum done)
      unfolding fetch_missing
      fetch_missing-At u sum true = Keeping-pure (at z) _
      fetch_missing-At u sum false =
          Keeping-bind (at z) _ _ (do_request-At Method.get u) (save_reply-At sum)

      -- `Download` leaves alone what is neither at its destination, nor below it, nor a temporary
      -- file beside it.
      pub download-At : (archive : Archive) → Keeping (at z) (download md5 archive dest)
      unfolding download
      download-At archive =
          Keeping-bind (at z) _ _ (Keeping-wrapped (at z) _ _ (get_md5_sum-At (url archive)))
            (λ sum.
              Keeping-bind (at z) _ _ (already-At dest sum) (fetch_missing-At (url archive) sum))

-- A download to the path that the updaters give leaves the database and the services alone.
pub download-Carried :
    (md5 : Bytes → Bytes) (root : FilePath) (archive : Archive) (w : World)
    → Leaves (Carried root data_at w data_at) (download md5 archive (root ++ archive_at) w)
unfolding strip
download-Carried md5 root archive w =
    Carried-At root w (download md5 archive (root ++ archive_at) w) (λ q.
      download-At (root ++ (data_at ++ q)) md5 (root ++ archive_at)
        (strip-append_left root archive_at (data_at ++ q))
        (λ s.
          subst (λ d. strip (d ++ temp_name s ∷ []) (root ++ (data_at ++ q)) ≡ none)
            (sym (parent-append root "photon-db.tar.bz2")) (strip-temp_name root s "node_1" q refl))
        archive w)
