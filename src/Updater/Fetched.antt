-- ===== src/Updater/Fetched.antt =====
-- internal/updater/parallel.go with internal/downloader and internal/unarchiver: from the network to
-- the temporary directory.
use photon_container.Base.{
  ◌≡◌, refl, sym, ap, subst, ◌∙◌, ℕ, String, ◌<>◌, true, false, Option, none, some, List, [], ◌∷◌,
  ◌++◌, append_assoc, append-nil, str_eq,
}
use text.Mathlib.Text.{starts_with}
use photon_container.Base.Time.{Time}
use photon_container.Downloader.Download.{download}
use photon_container.Downloader.Fields.{fields}
use photon_container.Downloader.Frame.{download-At}
use photon_container.Downloader.Success.{download_succeeds}
use photon_container.Os.Calls.{temp_name, is_dir, open_file}
use photon_container.Os.Files.{
  Files, FilePath, Bytes, file, strip, strip-append_left, parent-append, strip_other, strip-beyond,
}
use photon_container.Os.Frames.{strip-temp_name}
use photon_container.Os.Laws.{local, SameServices}
use photon_container.Os.Success.{whole, open_file-found}
use photon_container.Photondata.Archive.{Archive, url}
use photon_container.Photondata.Layout.{temp_at, fresh_at, archive_at}
use photon_container.Unarchiver.Contents.{unpack, empty_root}
use photon_container.Unarchiver.Extract.{decoded, Codec, unarchive}
use photon_container.Unarchiver.Options.{UnarchiveOption}
use photon_container.Unarchiver.Refinement.{IsUnpackable, IsUnpacked, unarchive-IsUnpacked}
use photon_container.Unarchiver.Writes.{IsCalm}
use photon_container.World.{World, Env, Method, reply, tick, ok}
use photon_container.World.Returns.{returned}
use photon_container.World.Rules.{Ensures, Leaves-world}

-- The server answers, as often as it is asked, with the bytes of the archive, and with a list whose
-- first field, of two or more, is their MD5 sum.
pub record IsPublished (md5 : Bytes → Bytes) (a : Archive) (b : Bytes) (e : Env) : Type 0 where
  pub sums : Bytes
  pub name : Bytes
  pub others : List Bytes
  pub listed : fields sums ≡ md5 b ∷ name ∷ others
  pub sums_modified : Option Time
  pub told : (k : ℕ) → e.fetch k Method.get (url a <> ".md5") ≡ reply 200 (whole sums) sums_modified
  pub modified : Option Time
  pub sent : (k : ℕ) → e.fetch k Method.get (url a) ≡ reply 200 (whole b) modified

-- The directory is there, and nothing is left in it of an earlier update.
pub record IsTidy (root : FilePath) (w : World) : Type 0 where
  pub inside : (p q : FilePath) → root ≡ p ++ q → is_dir (w.files p) ≡ true
  pub no_archive : w.files (root ++ archive_at) ≡ none
  pub no_temp_file : (s : String) → w.files (root ++ temp_name s ∷ []) ≡ none
  pub no_temp_dir : (q : FilePath) → w.files (root ++ temp_at ++ q) ≡ none

module _ (md5 : Bytes → Bytes) (codec : Codec) (root : FilePath) (w : World) (calm : IsCalm w.env)
    (tidy : IsTidy root w) (a : Archive) (b : Bytes) (published : IsPublished md5 a b w.env)
    (flags : List UnarchiveOption) (good : IsUnpackable (decoded codec flags (whole b))) where
  abbrev target : FilePath
  target = root ++ archive_at

  -- What the download does not touch, by its path from the root.
  kept :
      (z : FilePath)
      → strip archive_at z ≡ none
      → ((s : String) → strip (temp_name s ∷ []) z ≡ none)
      → (download md5 a target w).1.files (root ++ z) ≡ w.files (root ++ z)
  kept z away temps =
      (Leaves-world _ _ (
        download-At (root ++ z) md5 target (strip-append_left root archive_at z ∙ away)
          (λ s.
            ap (λ p. strip (p ++ temp_name s ∷ []) (root ++ z))
              (parent-append root "photon-db.tar.bz2")
            ∙ strip-append_left root (temp_name s ∷ []) z
            ∙ temps s)
          a w)).1

  -- A path that begins by one name, of those beside the archive.
  kept_below :
      (n : String) (q : FilePath)
      → str_eq "photon-db.tar.bz2" n ≡ false
      → starts_with n "tmp-" ≡ false
      → (download md5 a target w).1.files (root ++ (n ∷ q)) ≡ w.files (root ++ (n ∷ q))
  kept_below n q other named =
      kept (n ∷ q) (strip_other "photon-db.tar.bz2" n [] q other)
        (λ s. strip-temp_name [] s n q named)

  kept_above : (p q : FilePath) → root ≡ p ++ q → (download md5 a target w).1.files p ≡ w.files p
  kept_above p q e =
      (Leaves-world _ _ (
        download-At p md5 target (strip-beyond root p q "photon-db.tar.bz2" e)
          (λ s.
            ap (λ r. strip (r ++ temp_name s ∷ []) p) (parent-append root "photon-db.tar.bz2")
            ∙ strip-beyond root p q (temp_name s) e)
          a w)).1

  downloads :
      Ensures
        (λ _ v. SameServices w v × ((t : Time) × (v.files target ≡ some (file b t))))
        (λ _ _. ⊥)
        (download md5 a target w)
  downloads =
      download_succeeds md5 root "photon-db.tar.bz2" refl a w calm.no_fault b published.sums
        published.name published.others published.sums_modified published.modified published.told
        published.listed published.sent _ _ (calm.draws _)
        (tidy.inside root [] (sym (append-nil root))) tidy.no_archive (tidy.no_temp_file _)

  abbrev pub contents : Files
  contents = unpack [] empty_root (decoded codec flags (whole b)).entries

  -- The worlds after the download and after the unarchiving, and what stands in the latter.
  pub record IsFetched (v y : World) : Type 0 where
    pub downloaded : download md5 a target w ≡ (ok tt, v)
    pub opened : open_file target v ≡ (ok (whole b), tick v)
    pub unarchived : unarchive codec (whole b) (root ++ temp_at) flags (tick v) ≡ (ok tt, y)
    pub same : SameServices w y
    pub base : is_dir (local root y.files []) ≡ true
    pub fresh :
        (q : FilePath) → y.files (root ++ (fresh_at ++ q)) ≡ contents ("photon_data" ∷ "node_1" ∷ q)
    pub others :
        (n : String) (q : FilePath)
        → str_eq "photon-db.tar.bz2" n ≡ false
        → str_eq "temp" n ≡ false
        → starts_with n "tmp-" ≡ false
        → y.files (root ++ (n ∷ q)) ≡ w.files (root ++ (n ∷ q))

  module _ (v : World) (e : download md5 a target w ≡ (ok tt, v)) (same : SameServices w v) where
    same_at :
        (p : FilePath) → (download md5 a target w).1.files p ≡ w.files p → v.files p ≡ w.files p
    same_at p h = sym (ap (λ r. r.1.files p) e) ∙ h

    unpacks :
        Ensures
          (λ _. IsUnpacked codec flags (whole b) root "temp" (tick v))
          (λ _ _. ⊥)
          (unarchive codec (whole b) (root ++ temp_at) flags (tick v))
    unpacks =
        unarchive-IsUnpacked codec flags (whole b) root "temp" (tick v)
          (subst IsCalm (sym same.env) calm)
          (λ p q h. ap is_dir (same_at p (kept_above p q h)) ∙ tidy.inside p q h)
          (λ q.
            ap v.files (append_assoc root temp_at q)
            ∙ same_at (root ++ ("temp" ∷ q)) (kept_below "temp" q refl refl)
            ∙ sym (ap w.files (append_assoc root temp_at q))
            ∙ tidy.no_temp_dir q)
          good

    fetched :
        (t : Time)
        → v.files target ≡ some (file b t)
        → (y : World) → unarchive codec (whole b) (root ++ temp_at) flags (tick v) ≡ (ok tt, y)
        → IsUnpacked codec flags (whole b) root "temp" (tick v) y
        → IsFetched v y
    unfolding strip
    fetched t stored y u h = record {
      downloaded = e;
      opened =
          open_file-found target b t v (ap (λ x. x.fault v.now) same.env ∙ calm.no_fault v.now)
            stored;
      unarchived = u;
      same = record {
        photon = h.0.photon ∙ same.photon;
        migrator = h.0.migrator ∙ same.migrator;
        env = h.0.env ∙ same.env;
      };
      base =
          ap is_dir (
            h.2 (root ++ []) (strip-append_left root temp_at [])
            ∙ same_at (root ++ []) (kept [] refl (λ s. refl)))
          ∙ ap (λ p. is_dir (w.files p)) (append-nil root)
          ∙ tidy.inside root [] (sym (append-nil root));
      fresh = λ q.
          sym (ap y.files (append_assoc root temp_at ("photon_data" ∷ "node_1" ∷ q)))
          ∙ ap (λ f. f ("photon_data" ∷ "node_1" ∷ q)) h.1;
      others = λ n q k l m.
          h.2 (root ++ (n ∷ q))
            (strip-append_left root temp_at (n ∷ q) ∙ strip_other "temp" n [] q l)
          ∙ same_at (root ++ (n ∷ q)) (kept_below n q k m);
    }

  -- From the network to the temporary directory, without a fault.
  pub fetches : (v : World) × ((y : World) × IsFetched v y)
  fetches =
      let (_, e, (same, (t, stored))) = returned (download md5 a target w) downloads in
      let (_, u, h) = returned _ (unpacks (download md5 a target w).1 e same) in
      (_, (_, fetched (download md5 a target w).1 e same t stored _ u h))
