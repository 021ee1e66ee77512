-- ===== src/World/Frames.antt =====
-- Methods that keep a relation between the world before and the world after, on every branch.
use photon_container.Base.{String, Bool, true, false, if◌then◌else◌}
use photon_container.World.{
  World, M, Error, pure, raise, wrapped, deferred, ignored, recover, branch, ◌>>=◌,
}
use photon_container.World.Rules.{
  Ensures, Leaves, Ensures-pure, Ensures-raise, Ensures-bind, Ensures-wrapped, Ensures-weaken,
  Ensures-ignored, Ensures-recover, Ensures-branch, Ensures-deferred_keeping,
}

-- A relation that chains.
pub record Frame : Type 1 where
  pub relation : World → World → Type 0
  pub refl_at : (w : World) → relation w w
  pub trans_at : (u v w : World) → relation u v → relation v w → relation u w

module _ (frame : Frame) where
  abbrev R : World → World → Type 0
  R = frame.relation

  abbrev pub Keeping {ℓ} : {A : Type ℓ} → M A → Type 0
  Keeping m = (w : World) → Leaves (R w) (m w)

  pub Keeping-pure {ℓ} : {A : Type ℓ} (a : A) → Keeping (pure a)
  Keeping-pure a w = Ensures-pure (frame.refl_at w)

  pub Keeping-raise {ℓ} : (A : Type ℓ) (e : Error) → Keeping (raise {A = A} e)
  Keeping-raise A e w = Ensures-raise (frame.refl_at w)

  pub Keeping-if {ℓ} :
      {A : Type ℓ} (b : Bool) (m k : M A) → Keeping m → Keeping k → Keeping (if b then m else k)
  Keeping-if true m k g h = g
  Keeping-if false m k g h = h

  pub Keeping-wrapped {ℓ} :
      {A : Type ℓ} (text : String) (m : M A) → Keeping m → Keeping (wrapped text m)
  Keeping-wrapped text m h w = Ensures-wrapped text m w (h w)

  -- The continuation may rely on what the first method ensures of its value.
  pub Keeping-bind_on {ℓ κ} :
      {A : Type ℓ} {C : Type κ} {P : A → Type 0} (m : M A) (f : A → M C)
      → ((w : World) → Ensures (λ a v. P a × R w v) (λ _ v. R w v) (m w))
      → ((a : A) → P a → Keeping (f a))
      → Keeping (m >>= f)
  Keeping-bind_on m f h k w = Ensures-bind m f w (h w) (λ a v s.
      Ensures-weaken (k a s.0 v) (λ _ u. frame.trans_at w v u s.1)
        (λ _ u. frame.trans_at w v u s.1))

  pub Keeping-bind {ℓ κ} :
      {A : Type ℓ} {C : Type κ} (m : M A) (f : A → M C)
      → Keeping m
      → ((a : A) → Keeping (f a))
      → Keeping (m >>= f)
  Keeping-bind m f h k w = Ensures-bind m f w (h w) (λ a v s.
      Ensures-weaken (k a v) (λ _ u. frame.trans_at w v u s) (λ _ u. frame.trans_at w v u s))

  pub Keeping-ignored : (m : M (Unit {0})) → Keeping m → Keeping (ignored m)
  Keeping-ignored m h w = Ensures-ignored m w (h w)

  pub Keeping-deferred {ℓ} :
      {A : Type ℓ} (cleanup : M (Unit {0})) (m : M A)
      → Keeping cleanup
      → Keeping m
      → Keeping (deferred cleanup m)
  Keeping-deferred cleanup m h k w =
      Ensures-deferred_keeping R cleanup m w h (λ _ v u s t. frame.trans_at w v u t s)
        (λ _ v u s t. frame.trans_at w v u t s) (k w)

  pub Keeping-recover {ℓ} :
      {A : Type ℓ} (m : M A) (h : Error → M A)
      → Keeping m
      → ((e : Error) → Keeping (h e))
      → Keeping (recover m h)
  Keeping-recover m h k l w =
      Ensures-recover m h w (k w) (λ _ _ s. s)
        (λ e v s.
          Ensures-weaken (l e v) (λ _ u. frame.trans_at w v u s) (λ _ u. frame.trans_at w v u s))

  pub Keeping-branch {ℓ κ} :
      {A : Type ℓ} {C : Type κ} (m : M A) (f : A → M C) (h : Error → M C)
      → Keeping m
      → ((a : A) → Keeping (f a))
      → ((e : Error) → Keeping (h e))
      → Keeping (branch m f h)
  Keeping-branch m f h k g l w =
      Ensures-branch m f h w (k w)
        (λ a v s.
          Ensures-weaken (g a v) (λ _ u. frame.trans_at w v u s) (λ _ u. frame.trans_at w v u s))
        (λ e v s.
          Ensures-weaken (l e v) (λ _ u. frame.trans_at w v u s) (λ _ u. frame.trans_at w v u s))
