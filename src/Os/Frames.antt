-- ===== src/Os/Frames.antt =====
-- What the calls leave alone: a path that is neither the one that they act on nor below it.
use text.Mathlib.Text.{starts_with}
use photon_container.Base.{
  ◌≡◌, refl, ◌∙◌, ◌++◌, String, none, some, List, [], ◌∷◌, arith, ◌≢◌, false, str_eq-append,
}
use photon_container.Os.Files.{
  FilePath, Reader, file, strip, strip-append_left, strip_other, put_node,
}
use photon_container.Os.Calls.{
  stat, open_file, rename, remove_all, remove, mkdir, chtimes, create_temp, temp_name, write, close,
  create_first, is_missing, is_dir, copy,
}
use photon_container.Base.Time.{Time}
use photon_container.Os.Laws.{SameServices, SameServices-refl, SameServices-trans}
use photon_container.World.{World, tick, ◌>>=◌}
use photon_container.World.Frames.{Frame}
use photon_container.World.Rules.{
  Ensures, Leaves, Ensures-raise, Ensures-pure, Ensures-if, Ensures-weaken,
}

-- What `CreateTemp` may name a file in `d`.
abbrev pub IsTemp : FilePath → FilePath → Type 0
IsTemp d t = (s : String) × (t ≡ d ++ temp_name s ∷ [])

pub strip-temp_name :
    (d : FilePath) (s n : String) (q : FilePath)
    → starts_with n "tmp-" ≡ false
    → strip (d ++ temp_name s ∷ []) (d ++ (n ∷ q)) ≡ none
strip-temp_name d s n q h =
    strip-append_left d (temp_name s ∷ []) (n ∷ q)
    ∙ strip_other (temp_name s) n [] q (str_eq-append "tmp-" s n h)

module _ (z : FilePath) where
  -- The services are the same, and so is what stands at `z`.
  abbrev pub At : World → World → Type 0
  At w v = SameServices w v × (v.files z ≡ w.files z)

  pub At-refl : (w : World) → At w w
  At-refl w = (SameServices-refl w, refl)

  pub At-trans : (u v w : World) → At u v → At v w → At u w
  At-trans u v w h k = (SameServices-trans u v w h.0 k.0, k.1 ∙ h.1)

  -- What leaves `z` alone.
  abbrev pub at : Frame
  at = record { relation = At; refl_at = At-refl; trans_at = At-trans }

  pub stat-At : (p : FilePath) (w : World) → Leaves (At w) (stat p w)
  unfolding stat
  stat-At p w = ground arith

  pub open_file-At : (p : FilePath) (w : World) → Leaves (At w) (open_file p w)
  unfolding open_file
  open_file-At p w = ground arith

  pub close-At : (w : World) → Leaves (At w) (close w)
  unfolding close
  close-At w = ground arith

  module _ (p : FilePath) (away : strip p z ≢ some []) where
    pub remove-At : (w : World) → Leaves (At w) (remove p w)
    unfolding remove
    remove-At w = ground arith

    pub mkdir-At : (w : World) → Leaves (At w) (mkdir p w)
    unfolding mkdir
    mkdir-At w = ground arith

    pub chtimes-At : (t : Time) (w : World) → Leaves (At w) (chtimes p t w)
    unfolding chtimes
    chtimes-At t w = ground arith

    pub copy-At : (r : Reader) (w : World) → Leaves (At w) (copy p r w)
    unfolding copy write ◌>>=◌
    copy-At r w = ground arith

  pub remove_all-At :
      (p : FilePath) → strip p z ≡ none → (w : World) → Leaves (At w) (remove_all p w)
  unfolding remove_all
  remove_all-At p h w = ground arith

  pub rename-At :
      (p q : FilePath)
      → strip p z ≡ none
      → strip q z ≡ none
      → (w : World) → Leaves (At w) (rename p q w)
  unfolding rename
  rename-At p q h k w = ground arith

  module _ (d : FilePath) (away : (s : String) → strip (d ++ temp_name s ∷ []) z ≢ some []) where
    made :
        (s : String) (w : World)
        → At w (record w {
          files = put_node w.files (d ++ temp_name s ∷ []) (some (file [] (w.env.clock w.now)));
        })
    made s w = ground (arith, away s)

    same : (w : World) → At w (tick w)
    same w = (record { photon = refl; migrator = refl; env = refl }, refl)

    create_first-At :
        (names : List String) (w : World)
        → Ensures (λ t v. IsTemp d t × At w v) (λ _ v. At w v) (create_first d names w)
    create_first-At [] w = Ensures-raise (At-refl w)
    create_first-At (s ∷ names) w =
        Ensures-if (is_missing (w.files (d ++ temp_name s ∷ [])))
          (λ _. Ensures-pure ((s, refl), made s w)) (λ _. create_first-At names w)

    pub create_temp-At :
        (w : World) → Ensures (λ t v. IsTemp d t × At w v) (λ _ v. At w v) (create_temp d w)
    unfolding create_temp
    create_temp-At w =
        Ensures-if (w.env.fault w.now) (λ _. Ensures-raise (same w))
          (λ _.
            Ensures-if (is_dir (w.files d))
              (λ _.
                Ensures-weaken (create_first-At (w.env.rand (tick w).now) (tick w))
                  (λ _ v h. (h.0, At-trans w (tick w) v (same w) h.1))
                  (λ _ v h. At-trans w (tick w) v (same w) h))
              (λ _. Ensures-raise (same w)))
