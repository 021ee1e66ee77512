-- ===== src/Downloader/Sums.antt =====
-- internal/downloader/downloader.go: sums of files, and whether the file is there already.
use photon_container.Base.{
  ◌≡◌, refl, subst, ap, ◌∙◌, String, Bool, true, false, some, [], ◌∷◌, ◌++◌, arith, codes_eq,
  codes_eq_sound, inl, inr,
}
use text.Mathlib.Text.{starts_with}
use photon_container.Base.Time.{Time}
use photon_container.Downloader.Download.{already, same_sum, md5_sum_file, sum_of}
use photon_container.Os.Files.{FilePath, Files, Bytes, Reader, Node, dir, file}
use photon_container.Os.Laws.{SameServices, Delivers, open_file-Delivers}
use photon_container.Os.Frames.{At, At-refl, At-trans, stat-At}
use photon_container.World.{World}
use photon_container.World.Rules.{
  Ensures, Ensures-weaken, Ensures-choose, Ensures-bind, Ensures-wrapped, Ensures-pure,
  Ensures-raise, Ensures-branch,
}

module _ (md5 : Bytes → Bytes) where
  -- A file at `p` with the sum `s`.
  abbrev pub HasSum : FilePath → Bytes → World → Type 0
  HasSum p s v = (b : Bytes) × (t : Time) × (v.files p ≡ some (file b t)) × (md5 b ≡ s)

  pub HasSum-kept :
      (p : FilePath) (s : Bytes) (v u : World) → At p v u → HasSum p s v → HasSum p s u
  HasSum-kept p s v u k (b, t, e, m) = (b, t, k.1 ∙ e, m)

  module _ (p : FilePath) (w : World) where
    abbrev pub Unchanged : World → Type 0
    Unchanged v = SameServices w v × (v.files ≡ w.files)

    -- The sum is that of the file.
    abbrev pub Summed : Bytes → World → Type 0
    Summed got v = Unchanged v × HasSum p got w

    Summed-reader :
        (r : Reader) (v : World)
        → Delivers p w r v
        → Ensures Summed (λ _. Unchanged) (sum_of md5 r v)
    Summed-reader r v (s, f, inl broken) =
        Ensures-choose r.broken _ _ v (λ _. Ensures-raise (s, f)) (λ e. ground (arith, broken, e))
    Summed-reader r v (s, f, inr (t, e)) =
        Ensures-choose r.broken _ _ v (λ _. Ensures-raise (s, f))
          (λ _. Ensures-pure ((s, f), (r.content, t, e, refl)))

    pub md5_sum_file_lem : Ensures Summed (λ _. Unchanged) (md5_sum_file md5 p w)
    unfolding md5_sum_file
    md5_sum_file_lem =
        Ensures-bind _ _ w
          (Ensures-wrapped _ _ w
            (Ensures-weaken (open_file-Delivers p w) (λ _ _ h. h) (λ _ _ h. h)))
          Summed-reader

  module _ (d : FilePath) (n : String) (named : starts_with n "tmp-" ≡ false) where
    abbrev pub dest : FilePath
    dest = d ++ n ∷ []

    abbrev pub Same : World → World → Type 0
    Same w v = At dest w v

    pub unchanged-Same : (w v : World) → SameServices w v × (v.files ≡ w.files) → Same w v
    unchanged-Same w v h = (h.0, ap (λ (f : Files). f dest) h.1)

    -- What `already` tells.
    abbrev pub Told : Bytes → World → Bool → World → Type 0
    Told sum w true v = Same w v × HasSum dest sum v
    Told sum w false v = Same w v

    Told-at :
        (sum got : Bytes) (w : World) (b : Bool)
        → codes_eq got sum ≡ b
        → HasSum dest got w
        → Told sum w b w
    Told-at sum got w true e h =
        (At-refl dest w, subst (λ s. HasSum dest s w) (codes_eq_sound got sum e) h)
    Told-at sum got w false e h = At-refl dest w

    same_sum_lem :
        (sum : Bytes) (node : Node) (w : World)
        → Ensures (Told sum w) (λ _ v. Same w v) (same_sum md5 dest sum node w)
    unfolding same_sum
    same_sum_lem sum dir w = Ensures-raise (At-refl dest w)
    same_sum_lem sum (file b t) w =
        Ensures-bind _ _ w
          (Ensures-wrapped _ _ w
            (Ensures-weaken (md5_sum_file_lem dest w) (λ _ _ h. h) (λ _ v h. unchanged-Same w v h)))
          (λ got v h. Ensures-pure (Told-at_after sum w got v h (codes_eq got sum) refl))
      where
        Told-at_after :
            (sum : Bytes) (w : World) (got : Bytes) (v : World)
            → Summed dest w got v
            → (b : Bool) → codes_eq got sum ≡ b
            → Told sum w b v
        Told-at_after sum w got v h true e = (
          unchanged-Same w v h.0,
          HasSum-kept dest sum w v (unchanged-Same w v h.0) (Told-at sum got w true e h.1).1,
        )
        Told-at_after sum w got v h false e = unchanged-Same w v h.0

    pub Told-after :
        (sum : Bytes) (u v w : World) (b : Bool) → Same u v → Told sum v b w → Told sum u b w
    Told-after sum u v w true s h = (At-trans dest u v w s h.0, h.1)
    Told-after sum u v w false s h = At-trans dest u v w s h

    pub already_lem :
        (sum : Bytes) (w : World) → Ensures (Told sum w) (λ _ v. Same w v) (already md5 dest sum w)
    unfolding already
    already_lem sum w =
        Ensures-branch _ _ _ w (stat-At dest dest w)
          (λ node v h.
            Ensures-weaken (same_sum_lem sum node v) (λ b u. Told-after sum w v u b h)
              (λ _ u. At-trans dest w v u h))
          (λ _ v h. Ensures-pure h)
