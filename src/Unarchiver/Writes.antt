-- ===== src/Unarchiver/Writes.antt =====
-- internal/unarchiver/unarchiver.go: an `atomicWrite` that meets no fault.
use photon_container.Base.{
  ◌≡◌, ◌≢◌, refl, sym, Option, subst, ap, ◌∙◌, ℕ, suc, String, false, true, none, some, List, [],
  ◌∷◌, ◌++◌, append-nil, arith,
}
use mathlib.Core.Path.{fun_ext}
use photon_container.Base.Time.{Time}
use photon_container.Os.Calls.{temp_name, is_dir}
use photon_container.Os.Files.{
  FilePath, Bytes, file, parent, strip, strip_sound, strip-longer, put_node, move_tree,
}
use photon_container.Os.Laws.{strip_self, moved_to}
use photon_container.Os.Success.{
  put_node-here, put_node-away, put_node-below, created, create_temp-first, filled, copy-whole,
  close-calm, moved, rename-file, remove-missing, putting, chtimes-file, whole,
}
use photon_container.Unarchiver.Contents.{put_file}
use photon_container.Unarchiver.Extract.{discard, atomic_write, touch, Entry, extract_as, type_reg}
use photon_container.World.{World, Env, ok, tick, wrapped, deferred, ignored, ◌>>=◌}

-- No call fails, and a `CreateTemp` has a name to try.
pub record IsCalm (e : Env) : Type 0 where
  pub no_fault : (k : ℕ) → e.fault k ≡ false
  pub first_drawn : ℕ → String
  pub others_drawn : ℕ → List String
  pub draws : (k : ℕ) → e.rand k ≡ first_drawn k ∷ others_drawn k

module _ (w : World) (calm : IsCalm w.env) (t : FilePath) where
  abbrev pub tmp : FilePath
  tmp = parent t ++ temp_name (calm.first_drawn (suc w.now)) ∷ []

  module _ (b : Bytes) (unused : (x : FilePath) → w.files (tmp ++ x) ≡ none)
      (apart : strip t tmp ≢ some []) (free : is_dir (w.files t) ≡ false)
      (inside : is_dir (w.files (parent t)) ≡ true) where
    abbrev full : World
    full = filled tmp b (created tmp w)

    abbrev written : World
    written = tick (tick (moved tmp t full))

    at_temp : full.files tmp ≡ some (file b (w.env.clock (suc (suc w.now))))
    at_temp = put_node-here (created tmp w).files tmp _

    unused_here : w.files tmp ≡ none
    unused_here = subst (λ p. w.files p ≡ none) (append-nil tmp) (unused [])

    free_full : is_dir (full.files t) ≡ false
    free_full = ground (arith, free)

    above : strip tmp (parent t) ≡ none
    above = strip-longer (parent t) (temp_name (calm.first_drawn (suc w.now))) []

    inside_full : is_dir (full.files (parent t)) ≡ true
    inside_full = ground (arith, above, inside)

    full_below : (s : String) (x : FilePath) → full.files (tmp ++ (s ∷ x)) ≡ none
    full_below s x =
        put_node-below (created tmp w).files tmp s x _
        ∙ put_node-below w.files tmp s x _
        ∙ unused (s ∷ x)

    full_away : (q : FilePath) → strip tmp q ≡ none → full.files q ≡ w.files q
    full_away q h = put_node-away (created tmp w).files tmp q _ h ∙ put_node-away w.files tmp q _ h

    gone_at : (o : Option FilePath) → strip t tmp ≡ o → move_tree full.files tmp t tmp ≡ none
    gone_at none e = rw (e, move_tree) (rw (strip_self tmp) refl)
    gone_at (some []) e = absurd (apart e)
    gone_at (some (s ∷ x)) e = rw (e, move_tree) (full_below s x)

    gone : (moved tmp t full).files tmp ≡ none
    gone = gone_at (strip t tmp) refl

    atomic_write-calm : atomic_write t (whole b) w ≡ (ok tt, written)
    unfolding atomic_write discard wrapped deferred ignored ◌>>=◌
    atomic_write-calm =
        rw
          (create_temp-first (parent t) (calm.first_drawn (suc w.now))
            (calm.others_drawn (suc w.now)) w (calm.no_fault _) inside (calm.draws _) (unused_here))
          (rw (copy-whole tmp b (created tmp w) (calm.no_fault _)) (
            rw (rename-file tmp t b _ full (calm.no_fault _) at_temp free_full inside_full) (
              rw (close-calm (moved tmp t full) (calm.no_fault _))
                (rw (remove-missing tmp (tick (moved tmp t full)) (calm.no_fault _) gone) refl))))

    -- Outside what is replaced, the temporary file comes and goes.
    passed :
        (q : FilePath) (o : Option FilePath)
        → strip tmp q ≡ o
        → elim o [ some _ ↦ none | none ↦ full.files q ] ≡ w.files q
    passed q none e = full_away q e
    passed q (some x) e = sym (ap w.files (strip_sound tmp q x e) ∙ unused x)

    put_at :
        (mod_time : Time) (q : FilePath) (o : Option FilePath)
        → strip t q ≡ o
        → put_node (move_tree full.files tmp t) t (some (file b mod_time)) q
          ≡ put_file w.files t (file b mod_time) q
    put_at mod_time q none e =
        rw (e, put_node) (rw (e, put_file) (rw (e, move_tree) (passed q (strip tmp q) refl)))
    put_at mod_time q (some []) e = rw (e, put_node) (rw (e, put_file) refl)
    put_at mod_time q (some (s ∷ x)) e =
        rw (e, put_node) (rw (e, put_file) (rw (e, move_tree) (full_below s x)))

    pub put :
        (mod_time : Time)
        → put_node (move_tree full.files tmp t) t (some (file b mod_time))
          ≡ put_file w.files t (file b mod_time)
    put mod_time = fun_ext λ q. put_at mod_time q (strip t q) refl

    stands : written.files t ≡ some (file b (w.env.clock (suc (suc w.now))))
    stands = moved_to full.files tmp t ∙ at_temp

    -- A regular file in place of whatever file was there, and the temporary one gone.
    pub extract_reg-calm :
        (e : Entry)
        → e.body ≡ whole b
        → extract_as type_reg t e w ≡ (ok tt, putting t (file b e.mod_time) written)
    unfolding extract_as touch wrapped ◌>>=◌
    extract_reg-calm e body = rw body (
        rw atomic_write-calm
          (rw (chtimes-file t written (calm.no_fault _) b _ e.mod_time stands) refl))
