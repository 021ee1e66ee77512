-- ===== src/Downloader/Verified.antt =====
-- internal/downloader/downloader.go: what stands at the destination after `Download`.
use photon_container.Base.{
  ◌≡◌, refl, sym, subst, ap, ◌∙◌, String, Bool, true, false, none, [], ◌∷◌, ◌++◌, codes_eq,
  codes_eq_sound, ◌==◌,
}
use text.Mathlib.Text.{starts_with}
use photon_container.Downloader.Download.{
  download, get_md5_sum, fetch_missing, save_reply, save, place_verified, md5_sum_file,
}
use photon_container.Downloader.Frame.{not_here, get_md5_sum-At, drop_temp-At, do_request-At}
use photon_container.Downloader.Sums.{
  HasSum, HasSum-kept, md5_sum_file_lem, Told, Told-after, already_lem, unchanged-Same,
}
use photon_container.Os.Calls.{temp_name, copy, close}
use photon_container.Os.Files.{FilePath, Files, Bytes, Reader, parent, parent-append, strip}
use photon_container.Os.Laws.{SameServices, SameServices-trans, rename_to}
use photon_container.Os.Frames.{
  At, At-refl, At-trans, IsTemp, close-At, copy-At, create_temp-At, strip-temp_name,
}
use photon_container.Photondata.Archive.{Archive, url}
use photon_container.World.{
  World, Method, Reply, bad_url, unreachable, reply, ok, wrapped, ◌>>=◌, ◌>>◌,
}
use photon_container.World.Rules.{
  Ensures, Ensures-weaken, Ensures-choose, Ensures-bind, Ensures-wrapped, Ensures-pure,
  Ensures-raise, Ensures-both, Ensures-self, Ensures-deferred_keeping,
}

module _ (md5 : Bytes → Bytes) (d : FilePath) (n : String)
    (named : starts_with n "tmp-" ≡ false) where
  abbrev dest : FilePath
  dest = d ++ n ∷ []

  abbrev Same : World → World → Type 0
  Same w v = At dest w v

  place_verified_lem :
      (t : FilePath) (sum got : Bytes) (w : World)
      → HasSum md5 t got w
      → Ensures
          (λ _ v. SameServices w v × HasSum md5 dest sum v)
          (λ _ v. Same w v)
          (place_verified md5 t dest sum got w)
  unfolding place_verified
  place_verified_lem t sum got w (b, c, e, m) =
      Ensures-choose (codes_eq got sum) _ _ w
        (λ same. Ensures-wrapped _ _ w (
          Ensures-weaken (rename_to t dest w)
            (λ _ v h. (h.0, (b, c, h.1 ∙ e, m ∙ codes_eq_sound got sum same))) (λ _ v h. h)))
        (λ _. Ensures-raise (At-refl dest w))

  -- The outcomes of what follows the question whether the file is there.
  abbrev Saved : Bytes → World → World → Type 0
  Saved sum w v = SameServices w v × HasSum md5 dest sum v

  Saved-after : (sum : Bytes) (u v w : World) → Same u v → Saved sum v w → Saved sum u w
  Saved-after sum u v w s h = (SameServices-trans u v w s.0 h.0, h.1)

  temp_away : (t : FilePath) → IsTemp (parent dest) t → strip t dest ≡ none
  temp_away t h =
      subst (λ p. strip p dest ≡ none)
        (sym (h.1 ∙ ap (λ p. p ++ temp_name h.0 ∷ []) (parent-append d n)))
        (strip-temp_name d h.0 n [] named)

  module _ (sum : Bytes) (w : World) where
    -- The sum of the temporary file is taken and compared, and the file moves to its place.
    verified_lem :
        (t : FilePath) (v : World)
        → Same w v
        → Ensures
            (λ _. Saved sum w)
            (λ _. Same w)
            ((do
              got ←
                  wrapped "downloader.Downloader.Download: failed to calculate md5sum"
                    (md5_sum_file md5 t)
              place_verified md5 t dest sum got)
              v)
    verified_lem t v s =
        Ensures-bind {P = λ got x. Same w x × HasSum md5 t got x} _ _ v
          (Ensures-wrapped _ _ v (
            Ensures-weaken (md5_sum_file_lem md5 t v)
              (λ got x h. (
                At-trans dest w v x s (unchanged-Same md5 d n named v x h.0),
                HasSum-kept md5 t got v x (h.0.0, ap (λ (f : Files). f t) h.0.1) h.1,
              ))
              (λ _ x h. At-trans dest w v x s (unchanged-Same md5 d n named v x h))))
          (λ got x h.
            Ensures-weaken (place_verified_lem t sum got x h.1) (λ _ y. Saved-after sum w x y h.0)
              (λ _ y. At-trans dest w x y h.0))

    filled_lem :
        (body : Reader) (t : FilePath) (v : World)
        → IsTemp (parent dest) t
        → Same w v
        → Ensures
            (λ _. Saved sum w)
            (λ _. Same w)
            ((do
              wrapped "downloader.Downloader.Download: failed to write to temp file" (copy t body)
              wrapped "downloader.Downloader.Download: failed to close temp file" close
              got ←
                  wrapped "downloader.Downloader.Download: failed to calculate md5sum"
                    (md5_sum_file md5 t)
              place_verified md5 t dest sum got)
              v)
    filled_lem body t v h s =
        Ensures-bind {P = λ _. Same w} _ _ v
          (Ensures-wrapped _ _ v (
            Ensures-weaken (copy-At dest t (not_here t dest (temp_away t h)) body v)
              (λ _ x. At-trans dest w v x s) (λ _ x. At-trans dest w v x s)))
          (λ _ x k.
            Ensures-bind {P = λ _. Same w} _ _ x
              (Ensures-wrapped _ _ x (
                Ensures-weaken (close-At dest x) (λ _ y. At-trans dest w x y k)
                  (λ _ y. At-trans dest w x y k)))
              (λ _ y. verified_lem t y))

    save_lem : (body : Reader) → Ensures (λ _. Saved sum w) (λ _. Same w) (save md5 dest sum body w)
    unfolding save
    save_lem body =
        Ensures-bind _ _ w
          (Ensures-wrapped _ _ w (
            create_temp-At dest (parent dest)
              (λ s. not_here (parent dest ++ temp_name s ∷ []) dest (temp_away _ (s, refl))) w))
          (λ t v h.
            Ensures-deferred_keeping Same _ _ v (drop_temp-At dest t (temp_away t h.0))
              (λ _ x y k s. (SameServices-trans w x y s.0 k.0, HasSum-kept md5 dest sum x y k s.1))
              (λ _ x y k s. At-trans dest w x y s k) (filled_lem body t v h.0 h.1))

    save_reply_lem :
        (r : Reply) → Ensures (λ _. Saved sum w) (λ _. Same w) (save_reply md5 dest sum r w)
    unfolding save_reply
    save_reply_lem bad_url = Ensures-raise (At-refl dest w)
    save_reply_lem unreachable = Ensures-raise (At-refl dest w)
    save_reply_lem (reply status body _) =
        Ensures-choose (status == 200) _ _ w (λ _. save_lem body)
          (λ _. Ensures-raise (At-refl dest w))

  fetch_missing_lem :
      (u : String) (sum : Bytes) (done : Bool) (w v : World)
      → Told md5 d n named sum w done v
      → Ensures (λ _. Saved sum w) (λ _. Same w) (fetch_missing md5 u dest sum done v)
  unfolding fetch_missing
  fetch_missing_lem u sum true w v h = Ensures-pure (h.0.0, h.1)
  fetch_missing_lem u sum false w v h =
      Ensures-bind {P = λ _. Same w} _ _ v
        (Ensures-weaken (do_request-At dest Method.get u v) (λ _ x. At-trans dest w v x h)
          (λ _ x. At-trans dest w v x h))
        (λ r x k.
          Ensures-weaken (save_reply_lem sum x r) (λ _ y. Saved-after sum w x y k)
            (λ _ y. At-trans dest w x y k))

  -- `Download` to a path whose name does not begin with "tmp-". Without an error: the services are
  -- as they were, and at the destination stands a file whose MD5 sum is the one that the server
  -- states in answer to the request for it. With an error: the services and what stands at the
  -- destination are as they were.
  pub download_lem :
      (archive : Archive) (w : World)
      → Ensures
          (λ _ v.
            SameServices w v
            × ((sum : Bytes) × ((get_md5_sum (url archive) w).0 ≡ ok sum) × HasSum md5 dest sum v))
          (λ _ v. SameServices w v × (v.files dest ≡ w.files dest))
          (download md5 archive dest w)
  unfolding download
  download_lem archive w =
      Ensures-bind _ _ w
        (Ensures-wrapped _ _ w (
          Ensures-weaken
            (Ensures-both _ (get_md5_sum-At dest (url archive) w)
              (Ensures-self (get_md5_sum (url archive) w)))
            (λ _ v h. h) (λ _ v h. h.0)))
        (λ sum v h.
          Ensures-bind {P = Told md5 d n named sum w} _ _ v
            (Ensures-weaken (already_lem md5 d n named sum v)
              (λ b x. Told-after md5 d n named sum w v x b h.0) (λ _ x. At-trans dest w v x h.0))
            (λ done x k.
              Ensures-weaken (fetch_missing_lem (url archive) sum done w x k)
                (λ _ y s. (s.0, (sum, ap (λ r. r.0) h.1, s.1))) (λ _ y s. s)))
