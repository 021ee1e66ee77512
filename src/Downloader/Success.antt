-- ===== src/Downloader/Success.antt =====
-- internal/downloader/downloader.go: a download that meets no fault succeeds.
use photon_container.Base.{
  ◌≡◌, refl, subst, ap, ◌∙◌, ℕ, suc, String, ◌<>◌, true, false, Option, none, some, List, [], ◌∷◌,
  ◌++◌, codes_eq_refl, arith,
}
use text.Mathlib.Text.{starts_with}
use photon_container.Base.Time.{Time}
use photon_container.Downloader.Download.{
  download, get_md5_sum, already, fetch_missing, save_reply, save, place_verified, md5_sum_file,
}
use photon_container.Downloader.Fields.{fields}
use photon_container.Downloader.Frame.{drop_temp-At}
use photon_container.Downloader.Verified.{download_lem}
use photon_container.Os.Calls.{temp_name, stat, create_temp, open_file, is_dir}
use photon_container.Os.Files.{FilePath, Bytes, file, parent-append, strip, strip-longer}
use photon_container.Os.Frames.{strip-temp_name}
use photon_container.Os.Laws.{SameServices, rename_succeeds, rename_to}
use photon_container.Os.Success.{
  put_node-here, put_node-away, created, create_temp-first, whole, filled, copy-whole, close-calm,
}
use photon_container.Photondata.Archive.{Archive, url}
use photon_container.World.{World, Method, reply, tick, ok, wrapped, branch, ◌>>=◌}
use photon_container.World.Returns.{after, after_wrapped}
use photon_container.World.Rules.{
  Ensures, Ensures-weaken, Ensures-both, Ensures-wrapped, Ensures-deferred_keeping,
}

already-missing :
    (p : FilePath) (w : World)
    → w.env.fault w.now ≡ false
    → w.files p ≡ none
    → (md5 : Bytes → Bytes) (sum : Bytes) → already md5 p sum w ≡ (ok false, tick w)
unfolding already stat branch
already-missing p w calm missing md5 sum = rw calm (rw missing refl)

module _ (md5 : Bytes → Bytes) where
  md5_sum_file-found :
      (p : FilePath) (b : Bytes) (t : Time) (w : World)
      → w.env.fault w.now ≡ false
      → w.files p ≡ some (file b t)
      → md5_sum_file md5 p w ≡ (ok (md5 b), tick w)
  unfolding md5_sum_file open_file wrapped ◌>>=◌
  md5_sum_file-found p b t w calm found = ground (arith, calm, found)

  get_md5_sum-told :
      (u : String) (sum g c : Bytes) (rest : List Bytes) (m : Option Time) (w : World)
      → w.env.fetch w.now Method.get (u <> ".md5") ≡ reply 200 (whole c) m
      → fields c ≡ sum ∷ g ∷ rest
      → get_md5_sum u w ≡ (ok sum, tick w)
  unfolding get_md5_sum ◌>>=◌
  get_md5_sum-told u sum g c rest m w told listed = rw told (rw listed refl)

  -- What is drawn, verified and moved into place.
  module _ (d : FilePath) (n : String) (named : starts_with n "tmp-" ≡ false) where
    abbrev pub dest : FilePath
    dest = d ++ n ∷ []

    abbrev Arrived : Bytes → World → Type 0
    Arrived b v = (t : Time) × (v.files dest ≡ some (file b t))

    apart : (r : String) → strip (d ++ temp_name r ∷ []) dest ≡ none
    apart r = strip-temp_name d r n [] named

    place_verified-Arrived :
        (tmp : FilePath) (b sum : Bytes) (t : Time) (w : World)
        → md5 b ≡ sum
        → w.env.fault w.now ≡ false
        → w.files tmp ≡ some (file b t)
        → w.files dest ≡ none
        → is_dir (w.files d) ≡ true
        → strip tmp dest ≡ none
        → Ensures (λ _. Arrived b) (λ _ _. ⊥) (place_verified md5 tmp dest sum (md5 b) w)
    unfolding place_verified
    place_verified-Arrived tmp b sum t w same calm there free inside away =
        subst (λ s. Ensures (λ _. Arrived b) (λ _ _. ⊥) (place_verified md5 tmp dest s (md5 b) w))
          same
          (rw (codes_eq_refl (md5 b)) (
            Ensures-wrapped _ _ w (
              Ensures-weaken
                (Ensures-both _ (rename_to tmp dest w) (
                  rename_succeeds tmp dest (file b t) w calm there free
                    (ap (λ p. is_dir (w.files p)) (parent-append d n) ∙ inside) away))
                (λ _ v h. (t, h.0.1 ∙ there)) (λ _ _ h. h.1))))

    module _ (archive : Archive) (w : World) (calm : (k : ℕ) → w.env.fault k ≡ false)
        (b c g : Bytes) (rest : List Bytes) (m l : Option Time)
        (told : (k : ℕ) → w.env.fetch k Method.get (url archive <> ".md5") ≡ reply 200 (whole c) m)
        (listed : fields c ≡ md5 b ∷ g ∷ rest)
        (sent : (k : ℕ) → w.env.fetch k Method.get (url archive) ≡ reply 200 (whole b) l)
        (r : String) (rs : List String) (drawn : w.env.rand (suc (suc (suc (suc w.now)))) ≡ r ∷ rs)
        (inside : is_dir (w.files d) ≡ true) (missing : w.files dest ≡ none)
        (unused : w.files (d ++ temp_name r ∷ []) ≡ none) where
      abbrev tmp : FilePath
      tmp = d ++ temp_name r ∷ []

      above : strip tmp d ≡ none
      above = strip-longer d (temp_name r) []

      -- The world that the answer to the request for the archive finds.
      abbrev asked : World
      asked = tick (tick (tick w))

      abbrev put : World
      put = filled tmp b (created tmp asked)

      at_temp : put.files tmp ≡ some (file b (w.env.clock (suc (suc asked.now))))
      at_temp = put_node-here (created tmp asked).files tmp _

      beside_temp : (q : FilePath) → strip tmp q ≡ none → put.files q ≡ w.files q
      beside_temp q h =
          put_node-away (created tmp asked).files tmp q _ h ∙ put_node-away w.files tmp q _ h

      saves : Ensures (λ _. Arrived b) (λ _ _. ⊥) (save md5 dest (md5 b) (whole b) asked)
      unfolding save
      saves =
          after_wrapped _ _ tmp (created tmp asked) _ asked
            (ap (λ p. create_temp p asked) (parent-append d n)
              ∙ create_temp-first d r rs asked (calm _) inside drawn unused)
            (Ensures-deferred_keeping _ _ _ (created tmp asked) (drop_temp-At dest tmp (apart r))
              (λ _ x y k h. (h.0, k.1 ∙ h.1)) (λ _ _ _ _ absent. absent)
              (after_wrapped _ _ tt put _ (created tmp asked)
                (copy-whole tmp b (created tmp asked) (calm _))
                (after_wrapped _ _ tt (tick put) _ put (close-calm put (calm _)) (
                  after_wrapped _ _ (md5 b) (tick (tick put)) _ (tick put)
                    (md5_sum_file-found tmp b _ (tick put) (calm _) at_temp)
                    (place_verified-Arrived tmp b (md5 b) _ (tick (tick put)) refl (calm _) at_temp
                      (beside_temp dest (apart r) ∙ missing)
                      (ap is_dir (beside_temp d above) ∙ inside) (apart r))))))

      arrives : Ensures (λ _. Arrived b) (λ _ _. ⊥) (download md5 archive dest w)
      unfolding download fetch_missing save_reply
      arrives =
          after_wrapped _ _ (md5 b) (tick w) _ w
            (get_md5_sum-told (url archive) (md5 b) g c rest m w (told _) listed)
            (after _ false (tick (tick w)) _ (tick w)
              (already-missing dest (tick w) (calm _) missing md5 (md5 b))
              (after _ (reply 200 (whole b) l) asked _ (tick (tick w))
                (ap (λ x. (ok x, asked)) (sent _)) saves))

      -- A download that meets no fault succeeds: if no call fails, the server answers the request
      -- for the archive by 200 with a body that does not break off, and the one for its sum by 200
      -- with a list whose first field, of two or more, is the MD5 sum of that body; and if the
      -- directory is there, nothing stands at the destination, whose name does not begin with
      -- "tmp-", and the first name that is drawn for the temporary file is not taken; then
      -- `Download` reports no error, the services are as they were, and at the destination stands a
      -- file with the bytes of the body.
      pub download_succeeds :
          Ensures
            (λ _ v. SameServices w v × ((t : Time) × (v.files dest ≡ some (file b t))))
            (λ _ _. ⊥)
            (download md5 archive dest w)
      download_succeeds =
          Ensures-weaken (Ensures-both _ (download_lem md5 d n named archive w) arrives)
            (λ _ _ h. (h.0.0, h.1)) (λ _ _ h. h.1)
