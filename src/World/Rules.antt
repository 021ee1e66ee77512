-- ===== src/World/Rules.antt =====
-- What holds after a method, by the way in which it is put together.
use photon_container.Base.{◌≡◌, refl, subst, String, Bool, true, false, if◌then◌else◌}
use photon_container.World.{
  World, M, Result, ok, err, Error, wrap, wrapped, deferred, ignored, recover, branch, ◌>>=◌,
}

module _ {ℓ} {A : Type ℓ} (G : A → World → Type 0) (B : Error → World → Type 0) where
  abbrev ByResult : Result A → World → Type 0
  ByResult (ok a) w = G a w
  ByResult (err e) w = B e w

  -- `G` of the value and the world after a success, `B` of the error and the world after a failure.
  pub record Ensures (r : Result A × World) : Type 0 where
    pub at : ByResult r.0 r.1

module _ {ℓ} {A : Type ℓ} {G : A → World → Type 0} {B : Error → World → Type 0} where
  pub Ensures-pure : {a : A} {w : World} → G a w → Ensures G B (ok a, w)
  Ensures-pure h = record { at = h }

  pub Ensures-raise : {e : Error} {w : World} → B e w → Ensures G B (err e, w)
  Ensures-raise h = record { at = h }

  -- What is known of a success from its value alone.
  pub Ensures-value : (r : Result A × World) (a : A) → Ensures G B r → r.0 ≡ ok a → G a r.1
  Ensures-value r a h e = (subst (λ x. Ensures G B (x, r.1)) e h).at

  pub Ensures-if :
      (b : Bool) {r s : Result A × World}
      → (b ≡ true → Ensures G B r)
      → (b ≡ false → Ensures G B s)
      → Ensures G B (if b then r else s)
  Ensures-if true h k = h refl
  Ensures-if false h k = k refl

  pub Ensures-choose :
      (b : Bool) (m k : M A) (w : World)
      → (b ≡ true → Ensures G B (m w))
      → (b ≡ false → Ensures G B (k w))
      → Ensures G B ((if b then m else k) w)
  Ensures-choose true m k w h l = h refl
  Ensures-choose false m k w h l = l refl

  weaken_at :
      {H : A → World → Type 0} {C : Error → World → Type 0} (r : Result A) (w : World)
      → Ensures G B (r, w)
      → ((a : A) → G a w → H a w)
      → ((e : Error) → B e w → C e w)
      → Ensures H C (r, w)
  weaken_at (ok a) w h g b = record { at = g a h.at }
  weaken_at (err e) w h g b = record { at = b e h.at }

  pub Ensures-weaken :
      {H : A → World → Type 0} {C : Error → World → Type 0} {r : Result A × World}
      → Ensures G B r
      → ((a : A) (w : World) → G a w → H a w)
      → ((e : Error) (w : World) → B e w → C e w)
      → Ensures H C r
  Ensures-weaken {r} h g b = weaken_at r.0 r.1 h (λ a. g a r.1) (λ e. b e r.1)

  wrapped_at :
      (text : String) (r : Result A) (w : World)
      → Ensures G (λ e v. B (wrap text e) v) (r, w)
      → Ensures G B (wrapped text (λ _. (r, w)) w)
  unfolding wrapped
  wrapped_at text (ok a) w h = record { at = h.at }
  wrapped_at text (err e) w h = record { at = h.at }

  pub Ensures-wrapped :
      (text : String) (m : M A) (w : World)
      → Ensures G (λ e v. B (wrap text e) v) (m w)
      → Ensures G B (wrapped text m w)
  unfolding wrapped
  Ensures-wrapped text m w h = wrapped_at text (m w).0 (m w).1 h

  deferred_at :
      (cleanup : M (Unit {0})) (r : Result A) (w : World)
      → Ensures (λ a v. G a (cleanup v).1) (λ e v. B e (cleanup v).1) (r, w)
      → Ensures G B (r, (cleanup w).1)
  deferred_at cleanup (ok a) w h = record { at = h.at }
  deferred_at cleanup (err e) w h = record { at = h.at }

  pub Ensures-deferred :
      (cleanup : M (Unit {0})) (m : M A) (w : World)
      → Ensures (λ a v. G a (cleanup v).1) (λ e v. B e (cleanup v).1) (m w)
      → Ensures G B (deferred cleanup m w)
  unfolding deferred
  Ensures-deferred cleanup m w h = deferred_at cleanup (m w).0 (m w).1 h

module _ {ℓ κ} {A : Type ℓ} {C : Type κ} {P : A → World → Type 0} {G : C → World → Type 0}
    {B : Error → World → Type 0} where
  bind_at :
      (f : A → M C) (r : Result A) (w : World)
      → Ensures P B (r, w)
      → ((a : A) → P a w → Ensures G B (f a w))
      → Ensures G B (((λ _. (r, w)) >>= f) w)
  unfolding ◌>>=◌
  bind_at f (ok a) w h k = k a h.at
  bind_at f (err e) w h k = record { at = h.at }

  pub Ensures-bind :
      (m : M A) (f : A → M C) (w : World)
      → Ensures P B (m w)
      → ((a : A) (v : World) → P a v → Ensures G B (f a v))
      → Ensures G B ((m >>= f) w)
  unfolding ◌>>=◌
  Ensures-bind m f w h k = bind_at f (m w).0 (m w).1 h (λ a. k a (m w).1)

module _ {ℓ κ} {A : Type ℓ} {C : Type κ} {P : A → World → Type 0} {G : C → World → Type 0}
    {Q B : Error → World → Type 0} where
  branch_at :
      (f : A → M C) (h : Error → M C) (r : Result A) (w : World)
      → Ensures P Q (r, w)
      → ((a : A) → P a w → Ensures G B (f a w))
      → ((e : Error) → Q e w → Ensures G B (h e w))
      → Ensures G B (branch (λ _. (r, w)) f h w)
  unfolding branch
  branch_at f h (ok a) w s k l = k a s.at
  branch_at f h (err e) w s k l = l e s.at

  pub Ensures-branch :
      (m : M A) (f : A → M C) (h : Error → M C) (w : World)
      → Ensures P Q (m w)
      → ((a : A) (v : World) → P a v → Ensures G B (f a v))
      → ((e : Error) (v : World) → Q e v → Ensures G B (h e v))
      → Ensures G B (branch m f h w)
  unfolding branch
  Ensures-branch m f h w s k l =
      branch_at f h (m w).0 (m w).1 s (λ a. k a (m w).1) (λ e. l e (m w).1)

-- What holds of the world after the method, whether it fails or not.
abbrev pub Leaves {ℓ} : {A : Type ℓ} → (World → Type 0) → Result A × World → Type 0
Leaves P r = Ensures (λ _ v. P v) (λ _ v. P v) r

module _ {ℓ} {A : Type ℓ} (P : World → Type 0) where
  leaves_at : (r : Result A) (w : World) → Leaves P (r, w) → P w
  leaves_at (ok a) w h = h.at
  leaves_at (err e) w h = h.at

  of_at : (r : Result A) (w : World) → P w → Leaves P (r, w)
  of_at (ok a) w h = record { at = h }
  of_at (err e) w h = record { at = h }

  pub Leaves-of : (r : Result A × World) → P r.1 → Leaves P r
  Leaves-of r h = of_at r.0 r.1 h

  pub Leaves-world : (r : Result A × World) → Leaves P r → P r.1
  Leaves-world r h = leaves_at r.0 r.1 h

module _ {G : Unit {0} → World → Type 0} {B : Error → World → Type 0} where
  pub Ensures-ignored :
      (m : M (Unit {0})) (w : World) → Leaves (G tt) (m w) → Ensures G B (ignored m w)
  unfolding ignored
  Ensures-ignored m w h = record { at = Leaves-world (G tt) (m w) h }

module _ {ℓ} {A : Type ℓ} {P G : A → World → Type 0} {Q B : Error → World → Type 0} where
  recover_at :
      (h : Error → M A) (r : Result A) (w : World)
      → Ensures P Q (r, w)
      → ((a : A) → P a w → G a w)
      → ((e : Error) → Q e w → Ensures G B (h e w))
      → Ensures G B (recover (λ _. (r, w)) h w)
  unfolding recover
  recover_at h (ok a) w s g b = record { at = g a s.at }
  recover_at h (err e) w s g b = b e s.at

  pub Ensures-recover :
      (m : M A) (h : Error → M A) (w : World)
      → Ensures P Q (m w)
      → ((a : A) (v : World) → P a v → G a v)
      → ((e : Error) (v : World) → Q e v → Ensures G B (h e v))
      → Ensures G B (recover m h w)
  unfolding recover
  Ensures-recover m h w s g b = recover_at h (m w).0 (m w).1 s (λ a. g a (m w).1) (λ e. b e (m w).1)

module _ {ℓ} {A : Type ℓ} {G : A → World → Type 0} {B : Error → World → Type 0} where
  both_at :
      {H : A → World → Type 0} {C : Error → World → Type 0} (r : Result A) (w : World)
      → Ensures G B (r, w)
      → Ensures H C (r, w)
      → Ensures (λ a v. G a v × H a v) (λ e v. B e v × C e v) (r, w)
  both_at (ok a) w h k = record { at = (h.at, k.at) }
  both_at (err e) w h k = record { at = (h.at, k.at) }

  pub Ensures-both :
      {H : A → World → Type 0} {C : Error → World → Type 0} (r : Result A × World)
      → Ensures G B r
      → Ensures H C r
      → Ensures (λ a v. G a v × H a v) (λ e v. B e v × C e v) r
  Ensures-both r h k = both_at r.0 r.1 h k

  -- A deferred call that keeps what is claimed.
  pub Ensures-deferred_keeping :
      (R : World → World → Type 0) (cleanup : M (Unit {0})) (m : M A) (w : World)
      → ((v : World) → Leaves (R v) (cleanup v))
      → ((a : A) (v u : World) → R v u → G a v → G a u)
      → ((e : Error) (v u : World) → R v u → B e v → B e u)
      → Ensures G B (m w)
      → Ensures G B (deferred cleanup m w)
  Ensures-deferred_keeping R cleanup m w left g b h = Ensures-deferred cleanup m w (
      Ensures-weaken h (λ a v. g a v (cleanup v).1 (Leaves-world (R v) (cleanup v) (left v)))
        (λ e v. b e v (cleanup v).1 (Leaves-world (R v) (cleanup v) (left v))))

module _ {A : Type 0} where
  self_at :
      (r : Result A) (w : World)
      → Ensures
          (λ a v. ◌≡◌ {A = Result A × World} (r, w) (ok a, v))
          (λ e v. ◌≡◌ {A = Result A × World} (r, w) (err e, v))
          (r, w)
  self_at (ok a) w = record { at = refl }
  self_at (err e) w = record { at = refl }

  pub Ensures-self :
      (r : Result A × World) → Ensures (λ a v. r ≡ (ok a, v)) (λ e v. r ≡ (err e, v)) r
  Ensures-self r = self_at r.0 r.1
