-- ===== src/Updater/WiredRuns.antt =====
-- internal/updater/updater.go: `DownloadAndUpdate` of an updater of either strategy, over the
-- downloader and the unarchiver of the program.
use photon_container.Base.{
  ◌≡◌, refl, sym, subst, ◌∙◌, ◌⊎◌, Bool, String, Option, none, some, ◌==◌, true, false, List, [],
  ◌++◌, Bool-cases, inl, inr, arith, if◌then◌else◌,
}
use photon_container.Base.Time.{Time}
use photon_container.Downloader.Download.{
  downloader, get_last_modified, read_modified, modified, do_request,
}
use photon_container.Os.Files.{FilePath, Bytes, Reader}
use photon_container.Photon.Types.{is_serving, was_killed}
use photon_container.Photondata.Archive.{Archive, url}
use photon_container.Photondata.Layout.{data_at, temp_at}
use photon_container.Photondata.Migrator.{state, reset_state}
use photon_container.Photondata.Types.{migrated}
use photon_container.Unarchiver.Extract.{Codec, decoded}
use photon_container.Unarchiver.Frame.{all_plain}
use photon_container.Updater.Dependencies.{Unarchiver, Installed, IsDownloaded}
use photon_container.Updater.Entry.{
  Updater, by_sequence, in_parallel, impl_download_and_update, check_migratability, update_if_newer,
  download_and_update, require_newer,
}
use photon_container.Updater.Options.{UpdateOption, init_options, get_archive}
use photon_container.Updater.ParallelRuns.{parallel_download_and_update}
use photon_container.Updater.SequentialUpdate.{sequential_download_and_update}
use photon_container.Updater.Agreement.{parallel-Agree, sequential-Agree}
use photon_container.Updater.Wired.{
  unarchiver, States, guarded, guarded-IsLawful, unarchive-guarded, IsDownloaded-States,
}
use photon_container.World.{
  World, Env, M, ok, Method, Reply, bad_url, unreachable, reply, Error, ignored, ◌>>◌,
}
use photon_container.World.Frames.{
  Frame, Keeping, Keeping-bind, Keeping-pure, Keeping-raise, Keeping-ignored, Keeping-if,
}
use photon_container.World.Rules.{
  Ensures, Ensures-bind, Ensures-weaken, Ensures-wrapped, Ensures-pure, Ensures-raise,
}

-- The directory of the migrator and the environment stay the same.
abbrev same_dir : Frame
same_dir = record {
  relation = λ w v. (v.migrator.data_dir ≡ w.migrator.data_dir) × (v.env ≡ w.env);
  refl_at = λ w. (refl, refl);
  trans_at = λ u v w h k. (k.0 ∙ h.0, k.1 ∙ h.1);
}

reset_state-dir : Keeping same_dir reset_state
unfolding reset_state
reset_state-dir w = ground arith

modified-dir : (t : Option Time) → Keeping same_dir (modified t)
modified-dir none = Keeping-raise same_dir _ _
modified-dir (some t) = Keeping-pure same_dir t

read_modified-dir : (r : Reply) → Keeping same_dir (read_modified r)
read_modified-dir bad_url = Keeping-raise same_dir _ _
read_modified-dir unreachable = Keeping-raise same_dir _ _
read_modified-dir (reply status _ t) =
    Keeping-if same_dir (status == 200) _ _ (modified-dir t) (Keeping-raise same_dir _ _)

do_request-dir : (method : Method) (u : String) → Keeping same_dir (do_request method u)
do_request-dir method u w = ground arith

get_last_modified-dir : (a : Archive) → Keeping same_dir (get_last_modified a)
unfolding get_last_modified
get_last_modified-dir a =
    Keeping-bind same_dir _ _ (do_request-dir Method.head (url a)) read_modified-dir

state-dir :
    (w : World) → ((state w).1.migrator.data_dir ≡ w.migrator.data_dir) × ((state w).1.env ≡ w.env)
unfolding state
state-dir w = ground arith

module _ (md5 : Bytes → Bytes) (codec : Codec) (root : FilePath) where
  -- The updater of the agent, by its strategy.
  abbrev pub wired : Bool → Updater
  wired true = record {
    updater_impl = in_parallel (record {
      downloader = downloader md5;
      unarchiver = unarchiver codec;
      photon_data_dir = root;
    });
    downloader = downloader md5;
  }
  wired false = record {
    updater_impl = by_sequence (record {
      downloader = downloader md5;
      unarchiver = unarchiver codec;
      photon_data_dir = root;
    });
    downloader = downloader md5;
  }

  -- The state is migrated, the database in place is what a run of the unarchiver on a download of
  -- the archive, from the servers of the environment, left, and a process serves, or a signal had
  -- killed the last one.
  abbrev pub UpdatedTo : Archive → Env → World → Type 0
  UpdatedTo archive e v =
      (v.migrator.state ≡ migrated)
      × ((is_serving v.photon ≡ true) ⊎ (was_killed v.photon ≡ true))
      × Installed root (unarchiver codec) [] (IsDownloaded root (downloader md5) archive e) v

  -- The decoder reads no name with ".." in an archive whose MD5 sum is one that the servers of the
  -- environment state for the URL.
  abbrev pub HasPlainNames : Archive → Env → Type 0
  HasPlainNames archive e =
      (r : Reader)
      → States e archive (md5 r.content)
      → all_plain (decoded codec [] r).entries ≡ true

  abbrev Whatever : Error → World → Type 0
  Whatever e v = Unit {0}

  Installed-by :
      (ua ub : Unarchiver) (source : Reader → Type 0) (v : World)
      → ((r : Reader)
          → source r
          → ua.unarchive r (root ++ temp_at) [] ≡ ub.unarchive r (root ++ temp_at) [])
      → Installed root ua [] source v
      → Installed root ub [] source v
  Installed-by ua ub source v agree i = record {
    archive = i.archive;
    sourced = i.sourced;
    before = i.before;
    after = i.after;
    unarchived =
        subst (λ (m : M (Unit {0})). m i.before ≡ (ok tt, i.after)) (agree i.archive i.sourced)
          i.unarchived;
    in_place = i.in_place;
  }

  module _ (archive : Archive) (e : Env) (plain : HasPlainNames archive e) where
    agrees :
        (r : Reader)
        → IsDownloaded root (downloader md5) archive e r
        → (unarchiver (guarded codec)).unarchive r (root ++ temp_at) []
          ≡ (unarchiver codec).unarchive r (root ++ temp_at) []
    agrees r d =
        unarchive-guarded codec r (root ++ temp_at) []
          (plain r (IsDownloaded-States md5 root archive e r d))

    Installed-guarded :
        (v : World)
        → Installed root
            (unarchiver (guarded codec))
            []
            (IsDownloaded root (downloader md5) archive e)
            v
        → Installed root (unarchiver codec) [] (IsDownloaded root (downloader md5) archive e) v
    Installed-guarded v =
        Installed-by (unarchiver (guarded codec)) (unarchiver codec)
          (IsDownloaded root (downloader md5) archive e) v agrees

  impl-UpdatedTo :
      (parallel : Bool) (archive : Archive) (w : World)
      → HasPlainNames archive w.env
      → w.migrator.data_dir ≡ root ++ data_at
      → Ensures
          (λ _. UpdatedTo archive w.env)
          Whatever
          (impl_download_and_update (wired parallel).updater_impl archive [] w)
  unfolding impl_download_and_update init_options get_archive
  impl-UpdatedTo true archive w plain placed =
      subst (Ensures (λ _. UpdatedTo archive w.env) Whatever)
        (parallel-Agree (downloader md5) (unarchiver (guarded codec)) (unarchiver codec) root
          archive [] w (agrees archive w.env plain))
        (Ensures-weaken
          (parallel_download_and_update
            (record {
              downloader = downloader md5;
              unarchiver = unarchiver (guarded codec);
              photon_data_dir = root;
            })
            w (guarded-IsLawful md5 codec root) placed archive [])
          (λ _ v h. (h.0, h.1, Installed-guarded archive w.env plain v h.2)) (λ _ v h. tt))
  impl-UpdatedTo false archive w plain placed =
      subst (Ensures (λ _. UpdatedTo archive w.env) Whatever)
        (sequential-Agree (downloader md5) (unarchiver (guarded codec)) (unarchiver codec) root
          archive [] w (agrees archive w.env plain))
        (Ensures-weaken
          (sequential_download_and_update
            (record {
              downloader = downloader md5;
              unarchiver = unarchiver (guarded codec);
              photon_data_dir = root;
            })
            w [] (guarded-IsLawful md5 codec root) placed archive)
          (λ _ v h. (h.0, h.1, Installed-guarded archive w.env plain v h.2)) (λ _ v h. tt))

  module _ (parallel : Bool) (e : Env) where
    abbrev u : Updater
    u = wired parallel

    abbrev Placed : World → Type 0
    Placed v = (v.migrator.data_dir ≡ root ++ data_at) × (v.env ≡ e)

    Placed-kept : (w v : World) → same_dir.relation w v → Placed w → Placed v
    Placed-kept w v h k = (h.0 ∙ k.0, h.1 ∙ k.1)

    Placed-impl :
        (archive : Archive) (w : World)
        → HasPlainNames archive e
        → Placed w
        → Ensures
            (λ _. UpdatedTo archive e)
            Whatever
            (impl_download_and_update u.updater_impl archive [] w)
    Placed-impl archive w plain placed =
        subst
          (λ a.
            HasPlainNames archive a
            → Ensures (λ _. UpdatedTo archive a) Whatever
                (impl_download_and_update u.updater_impl archive [] w))
          placed.1 (λ p. impl-UpdatedTo parallel archive w p placed.0) plain

    check_migratability-Placed :
        (a : Archive) (w : World)
        → Placed w
        → Ensures (λ _. Placed) Whatever (check_migratability (downloader md5) a w)
    unfolding check_migratability
    check_migratability-Placed a w placed =
        Ensures-bind {P = λ _. Placed} _ _ (state w).1
          (Ensures-wrapped _ _ (state w).1 (
            Ensures-weaken (get_last_modified-dir a (state w).1)
              (λ _ v h.
                Placed-kept (state w).1 v h (Placed-kept w (state w).1 (state-dir w) placed))
              (λ _ _ _. tt)))
          (λ t v h. Ensures-pure h)

    require_newer-Placed :
        (newer : Bool) (w : World)
        → Placed w
        → Ensures (λ _. Placed) Whatever (require_newer newer w)
    unfolding require_newer
    require_newer-Placed true w placed = Ensures-pure placed
    require_newer-Placed false w placed = Ensures-raise tt

    downloader-of : u.downloader ≡ downloader md5
    downloader-of = elim (Bool-cases parallel) [ inl e ↦ rw e | inr e ↦ rw e ]

    update_if_newer-UpdatedTo :
        (a : Archive) (w : World)
        → HasPlainNames a e
        → Placed w
        → Ensures (λ _. UpdatedTo a e) Whatever (update_if_newer u a w)
    unfolding update_if_newer
    update_if_newer-UpdatedTo a w plain placed =
        Ensures-bind {P = λ _. Placed} _ _ w
          (Ensures-wrapped _ _ w (
            subst (λ d. Ensures (λ _. Placed) Whatever (check_migratability d a w))
              (sym downloader-of) (check_migratability-Placed a w placed)))
          (λ newer v h.
            Ensures-bind _ _ v (require_newer-Placed newer v h) (λ _ x k. Placed-impl a x plain k))

    by_force :
        (force : Bool) (a named : Archive) (w : World)
        → HasPlainNames (if force then a else named) e
        → Placed w
        → Ensures
            (λ _. UpdatedTo (if force then a else named) e)
            Whatever
            ((if force
                then (do ignored reset_state; impl_download_and_update u.updater_impl a [])
                else update_if_newer u named)
              w)
    by_force true a named w plain placed =
        Ensures-bind {P = λ _. Placed} _ _ w
          (Ensures-weaken (Keeping-ignored same_dir _ reset_state-dir w)
            (λ _ v h. Placed-kept w v h placed) (λ _ _ _. tt))
          (λ _ v h. Placed-impl a v plain h)
    by_force false a named w plain placed = update_if_newer-UpdatedTo named w plain placed

    -- `DownloadAndUpdate` of the agent, by either strategy, forced or not, over a migrator of its
    -- directory, with any MD5 function and a decoder that reads no name with ".." in an archive
    -- with the MD5 sum that the servers state for the URL: if it reports no error, the state is
    -- migrated, the database in place is what a run of the unarchiver, without options, on the
    -- file that a download had left put in the temporary directory, and a process serves, or a
    -- signal had killed the last one. The download is from the servers of the environment, of the
    -- archive that the options name, or of the default one if they name none or if the update is
    -- forced.
    pub download_and_update_installs :
        (a : Archive) (options : List UpdateOption) (w : World)
        → HasPlainNames
            (if (init_options options).force then a else get_archive (init_options options) a)
            e
        → Placed w
        → Ensures
            (λ _.
              UpdatedTo
                (if (init_options options).force then a else get_archive (init_options options) a)
                e)
            Whatever
            (download_and_update u a options w)
    unfolding download_and_update
    download_and_update_installs a options w plain placed =
        by_force (init_options options).force a (get_archive (init_options options) a) w plain
          placed
