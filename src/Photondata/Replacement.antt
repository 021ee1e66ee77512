-- ===== src/Photondata/Replacement.antt =====
-- internal/photondata/migrator.go: what the migrations do to the files, on every branch.
use photon_container.Base.{◌≡◌, refl, ◌⊎◌, inl, inr, ap, ◌∙◌, ◌++◌, []}
use photon_container.Os.Files.{FilePath, strip}
use photon_container.Os.Calls.{rename, remove_all}
use photon_container.Os.Laws.{
  SameServices, SameServices-trans, local, rename-local, remove_all-local,
}
use photon_container.Os.Frames.{At}
use photon_container.World.{World, Result}
use photon_container.World.Rules.{
  Ensures, Leaves, Leaves-of, Leaves-world, Ensures-bind, Ensures-wrapped, Ensures-weaken,
  Ensures-ignored, Ensures-raise, Ensures-recover,
}
use photon_container.Photondata.Layout.{
  old_dir-append, unarchived_data_dir-append, data_at, old_at, fresh_at, temp_at,
}
use photon_container.Photondata.Migrator.{replace_files, swap_in}

module _ (root : FilePath) where
  -- What stands at `a` in the second world is what stood at `b` in the first.
  abbrev pub Moved : FilePath → World → FilePath → World → Type 0
  Moved b w a v = (q : FilePath) → local root v.files (a ++ q) ≡ local root w.files (b ++ q)

  pub Moved-at :
      (a : FilePath) (w v : World) → local root v.files ≡ local root w.files → Moved a w a v
  Moved-at a w v h q = ap (λ f. f (a ++ q)) h

  -- Both services are the same, and what stood at `b` stands at `a`.
  abbrev pub Carried : FilePath → World → FilePath → World → Type 0
  Carried b w a v = SameServices w v × Moved b w a v

  pub Carried-trans :
      (a b c : FilePath) (u v w : World) → Carried a u b v → Carried b v c w → Carried a u c w
  Carried-trans a b c u v w h k = (SameServices-trans u v w h.0 k.0, λ q. k.1 q ∙ h.1 q)

  -- What leaves each path at and below the database alone leaves the database alone.
  pub Carried-At {ℓ} :
      {A : Type ℓ} (w : World) (r : Result A × World)
      → ((q : FilePath) → Leaves (At (root ++ (data_at ++ q)) w) r)
      → Leaves (Carried data_at w data_at) r
  Carried-At w r h = Leaves-of (Carried data_at w data_at) r (
    (Leaves-world (At (root ++ (data_at ++ [])) w) r (h [])).0,
    (λ q. (Leaves-world (At (root ++ (data_at ++ q)) w) r (h q)).1),
  )

  cleanup_local : (w : World) → Leaves (Carried data_at w data_at) (remove_all (root ++ old_at) w)
  unfolding strip
  cleanup_local w =
      Ensures-weaken (remove_all-local root old_at w)
        (λ _ v h. (h.0, λ q. ap (λ f. f (data_at ++ q)) h.1))
        (λ _ v h. (h.0, λ q. h.1 (data_at ++ q) refl))

  -- What was set aside is back, or still there.
  abbrev Rescued : World → World → Type 0
  Rescued w v = SameServices w v × (Moved old_at w data_at v ⊎ Moved old_at w old_at v)

  restore_local :
      (w v : World)
      → SameServices w v
      → local root v.files ≡ local root w.files
      → Leaves (Rescued w) (rename (root ++ old_at) (root ++ data_at) v)
  unfolding strip
  restore_local w v s e =
      Ensures-weaken (rename-local root old_at data_at v)
        (λ _ u k. (
          SameServices-trans w v u s k.0,
          inl (λ q. ap (λ f. f (data_at ++ q)) k.1 ∙ ap (λ f. f (old_at ++ q)) e),
        ))
        (λ _ u k. (SameServices-trans w v u s k.0, inr (Moved-at old_at w u (k.1 ∙ e))))

  swap_in_local :
      (w : World)
      → Ensures
          (λ _ v. SameServices w v × Moved fresh_at w data_at v)
          (λ _. Rescued w)
          (swap_in (root ++ data_at) (root ++ fresh_at) w)
  unfolding swap_in strip
  swap_in_local w =
      Ensures-recover _ _ w (rename-local root fresh_at data_at w)
        (λ _ v h. (h.0, λ q. ap (λ f. f (data_at ++ q)) h.1))
        λ e v h. rw (old_dir-append root) (
          Ensures-bind {P = λ _. Rescued w} _ _ v (Ensures-ignored _ v (restore_local w v h.0 h.1))
            (λ _ u k. Ensures-raise k))

  -- The database stands where it stood, or was set aside.
  abbrev pub Safe : World → World → Type 0
  Safe w v = SameServices w v × (Moved data_at w data_at v ⊎ Moved data_at w old_at v)

  Rescued-Safe : (w v u : World) → Carried data_at w old_at v → Rescued v u → Safe w u
  Rescued-Safe w v u h (s, inl m) =
      let t = Carried-trans data_at old_at data_at w v u h (s, m) in (t.0, inl t.1)
  Rescued-Safe w v u h (s, inr m) =
      let t = Carried-trans data_at old_at old_at w v u h (s, m) in (t.0, inr t.1)

  pub replace_files-local :
      (w : World)
      → Ensures
          (λ _. Carried fresh_at w data_at)
          (λ _. Safe w)
          (replace_files (root ++ data_at) (root ++ temp_at) w)
  unfolding replace_files strip
  replace_files-local w =
      rw (old_dir-append root, unarchived_data_dir-append root)
        (Ensures-bind _ _ w
          (Ensures-wrapped _ _ w (
            Ensures-weaken (rename-local root data_at old_at w) (λ _ v h. h)
              (λ _ v h. (h.0, inl (Moved-at data_at w v h.1)))))
          (λ _ v h.
            let aside : Carried data_at w old_at v = (h.0, λ q. ap (λ f. f (old_at ++ q)) h.1) in
            let fresh : Carried fresh_at w fresh_at v =
              (h.0, λ q. ap (λ f. f (fresh_at ++ q)) h.1) in
            Ensures-bind {P = λ _. Carried fresh_at w data_at} _ _ v
              (Ensures-wrapped _ _ v (
                Ensures-weaken (swap_in_local v)
                  (λ _ u k. Carried-trans fresh_at fresh_at data_at w v u fresh k)
                  (λ _ u k. Rescued-Safe w v u aside k)))
              (λ _ u k. Ensures-ignored _ u (
                Ensures-weaken (cleanup_local u)
                  (λ _ x c. Carried-trans fresh_at data_at data_at w u x k c)
                  (λ _ x c. Carried-trans fresh_at data_at data_at w u x k c)))))
