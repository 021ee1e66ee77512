-- ===== src/World/Agreement.antt =====
-- When two ways to go on come to the same result.
use photon_container.Base.{◌≡◌, refl, ap, String, arith}
use photon_container.World.{World, M, Result, ok, err, wrapped, deferred, ◌>>=◌}

module _ {ℓ κ} {A : Type ℓ} {B : Type κ} (f g : A → M B) where
  agree_at :
      (x : Result A × World)
      → ((a : A) (v : World) → x ≡ (ok a, v) → f a v ≡ g a v)
      → (w : World) → ((λ _. x) >>= f) w ≡ ((λ _. x) >>= g) w
  unfolding ◌>>=◌
  agree_at (ok a, v) h w = h a v refl
  agree_at (err e, v) h w = refl

  -- Only what the first call has come to matters.
  pub bind_agree :
      (m : M A) (w : World)
      → ((a : A) (v : World) → m w ≡ (ok a, v) → f a v ≡ g a v)
      → (m >>= f) w ≡ (m >>= g) w
  unfolding ◌>>=◌
  bind_agree m w h = agree_at (m w) h w

module _ {ℓ} {A : Type ℓ} where
  pub deferred_agree :
      (cleanup : M (Unit {0})) (m k : M A) (w : World)
      → m w ≡ k w
      → deferred cleanup m w ≡ deferred cleanup k w
  unfolding deferred
  deferred_agree cleanup m k w h = ap (λ x. (x.0, (cleanup x.1).1)) h

module _ {A : Type 0} where
  wrapped_ok_at :
      (text : String) (x : Result A × World) (w : World) (a : A) (v : World)
      → wrapped text (λ _. x) w ≡ (ok a, v)
      → x ≡ (ok a, v)
  unfolding wrapped
  wrapped_ok_at text (ok b, u) w a v h = h
  wrapped_ok_at text (err e, u) w a v h = ground (arith, h)

  pub wrapped_ok :
      (text : String) (m : M A) (w : World) (a : A) (v : World)
      → wrapped text m w ≡ (ok a, v)
      → m w ≡ (ok a, v)
  unfolding wrapped
  wrapped_ok text m w a v h = wrapped_ok_at text (m w) w a v h

module _ {κ} {A : Type 0} {B : Type κ} where
  pub wrapped_agree :
      (text : String) (m k : M A) (f : A → M B) (w : World)
      → m ≡ k
      → (wrapped text m >>= f) w ≡ (wrapped text k >>= f) w
  wrapped_agree text m k f w h = ap (λ (x : M A). (wrapped text x >>= f) w) h
