-- ===== src/Unarchiver/Lawful.antt =====
-- internal/unarchiver/unarchiver.go: what the whole of `Unarchive` into the temporary directory
-- leaves alone.
use photon_container.Base.{
  ◌≡◌, sym, subst, ◌≢◌, String, true, Option, none, some, List, [], ◌∷◌, ◌++◌, arith, append_assoc,
  append-nil, eq_refl,
}
use photon_container.Os.Calls.{mkdir_all, mkdir_below, ensure_dir}
use photon_container.Os.Files.{FilePath, Reader, Node, dir, file, strip, strip-append_left}
use photon_container.Os.Frames.{at, stat-At, mkdir-At, remove_all-At}
use photon_container.Photondata.Layout.{data_at, temp_at}
use photon_container.Photondata.Replacement.{Carried, Carried-At}
use photon_container.Unarchiver.Extract.{
  Codec, decoded, unarchive_into, require_dir, prepare, clean_up, unarchive,
}
use photon_container.Unarchiver.Frame.{z, away_below, not_on, all_plain, extract_all-At}
use photon_container.Unarchiver.Options.{UnarchiveOption}
use photon_container.World.{World, Error}
use photon_container.World.Rules.{Leaves}
use photon_container.World.Frames.{
  Keeping, Keeping-pure, Keeping-raise, Keeping-wrapped, Keeping-bind, Keeping-recover,
  Keeping-branch,
}

-- Making one directory on the way.
ensure_dir-At :
    (z p : FilePath) → strip p z ≢ some [] → (o : Option Node) → Keeping (at z) (ensure_dir p o)
ensure_dir-At z p away none = mkdir-At z p away
ensure_dir-At z p away (some dir) = Keeping-pure (at z) _
ensure_dir-At z p away (some (file _ _)) = Keeping-raise (at z) _ _

-- The database is below the directories on the way to it, and is none of them.
on_the_way :
    (p : FilePath) (s : String) (rest q : FilePath)
    → strip (p ++ s ∷ []) (p ++ (s ∷ (rest ++ (data_at ++ q)))) ≢ some []
unfolding strip
on_the_way p s [] q h =
    ground (arith, h, strip-append_left p (s ∷ []) (s ∷ (data_at ++ q)), eq_refl s)
on_the_way p s (n ∷ rest) q h =
    ground (arith, h, strip-append_left p (s ∷ []) (s ∷ (n ∷ (rest ++ (data_at ++ q)))), eq_refl s)

mkdir_below-At :
    (p rest q : FilePath)
    → Keeping (at (p ++ (rest ++ (data_at ++ q)))) (mkdir_below p (rest ++ temp_at))
mkdir_below-At p [] q =
    Keeping-bind (at (p ++ (data_at ++ q))) _ _
      (λ w.
        ensure_dir-At (p ++ (data_at ++ q)) (p ++ temp_at)
          (not_on p q (p ++ temp_at)
            (away_below p q (p ++ temp_at) ([], sym (append-nil (p ++ temp_at)))))
          (w.files (p ++ temp_at)) w)
      (λ _. Keeping-pure (at (p ++ (data_at ++ q))) tt)
mkdir_below-At p (s ∷ rest) q =
    Keeping-bind (at (p ++ (s ∷ (rest ++ (data_at ++ q))))) _ _
      (λ w.
        ensure_dir-At (p ++ (s ∷ (rest ++ (data_at ++ q)))) (p ++ s ∷ []) (on_the_way p s rest q)
          (w.files (p ++ s ∷ [])) w)
      (λ _.
        subst (λ x. Keeping (at x) (mkdir_below (p ++ s ∷ []) (rest ++ temp_at)))
          (append_assoc p (s ∷ []) (rest ++ (data_at ++ q))) (mkdir_below-At (p ++ s ∷ []) rest q))

module _ (codec : Codec) (root : FilePath) where
  require_dir-At : (q : FilePath) (n : Node) → Keeping (at (z root q)) (require_dir codec n)
  unfolding require_dir
  require_dir-At q dir = Keeping-pure (at (z root q)) _
  require_dir-At q (file _ _) = Keeping-raise (at (z root q)) _ _

  prepare-At : (q : FilePath) → Keeping (at (z root q)) (prepare codec (root ++ temp_at))
  unfolding prepare mkdir_all
  prepare-At q =
      Keeping-branch (at (z root q)) _ _ _ (stat-At (z root q) (root ++ temp_at)) (require_dir-At q)
        (λ _. Keeping-wrapped (at (z root q)) _ _ (mkdir_below-At [] root q))

  clean_up-At :
      (q : FilePath) (e : Error) → Keeping (at (z root q)) (clean_up codec (root ++ temp_at) e)
  unfolding clean_up
  clean_up-At q e =
      Keeping-bind (at (z root q)) _ _
        (Keeping-recover (at (z root q)) _ _
          (remove_all-At (z root q) (root ++ temp_at)
            (away_below root q (root ++ temp_at) ([], sym (append-nil (root ++ temp_at)))))
          (λ _. Keeping-raise (at (z root q)) _ _))
        (λ _. Keeping-raise (at (z root q)) _ _)

  module _ (r : Reader) (options : List UnarchiveOption)
      (plain : all_plain (decoded codec options r).entries ≡ true) where
    unarchive_into-At :
        (q : FilePath) → Keeping (at (z root q)) (unarchive_into codec r (root ++ temp_at) options)
    unfolding unarchive_into
    unarchive_into-At q =
        extract_all-At root q (decoded codec options r).broken (decoded codec options r).entries
          plain

    -- Unarchiving an archive into the temporary directory leaves the database and the services
    -- alone, whether it fails or not, if no name in the archive leads upwards.
    pub unarchive-Carried :
        (w : World)
        → Leaves (Carried root data_at w data_at) (unarchive codec r (root ++ temp_at) options w)
    unfolding unarchive
    unarchive-Carried w = Carried-At root w (unarchive codec r (root ++ temp_at) options w) (λ q.
        Keeping-bind (at (z root q)) _ _ (prepare-At q)
          (λ _. Keeping-recover (at (z root q)) _ _ (unarchive_into-At q) (clean_up-At q)) w)
