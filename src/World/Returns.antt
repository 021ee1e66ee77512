-- ===== src/World/Returns.antt =====
-- Methods of which it is known that they return a value.
use photon_container.Base.{◌≡◌, refl, String}
use photon_container.World.{World, M, Error, Result, ok, err, wrapped, ◌>>=◌}
use photon_container.World.Rules.{Ensures}

module _ {ℓ κ} {A : Type ℓ} {C : Type κ} {G : C → World → Type 0} {B : Error → World → Type 0} where
  pub after_wrapped :
      (text : String) (f : A → M C) (a : A) (v : World) (m : M A) (w : World)
      → m w ≡ (ok a, v)
      → Ensures G B (f a v)
      → Ensures G B ((wrapped text m >>= f) w)
  unfolding wrapped ◌>>=◌
  after_wrapped text f a v m w h k = rw h k

  pub after :
      (f : A → M C) (a : A) (v : World) (m : M A) (w : World)
      → m w ≡ (ok a, v)
      → Ensures G B (f a v)
      → Ensures G B ((m >>= f) w)
  unfolding ◌>>=◌
  after f a v m w h k = rw h k

module _ {ℓ} {A : Type ℓ} {G : A → World → Type 0} where
  -- A method that is known not to fail returns a value.
  pub returned :
      (r : Result A × World) → Ensures G (λ _ _. ⊥) r → (a : A) × (r ≡ (ok a, r.1)) × G a r.1
  returned (ok a, w) h = (a, refl, h.at)
  returned (err e, w) h = absurd h.at
