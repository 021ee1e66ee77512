-- ===== src/Photondata/Exclusion.antt =====
-- internal/photondata/migrator.go: any number of migrations at once, whose steps interleave. A step
-- is what a method does under its lock, or what it does to the files in between.
use photon_container.Base.{
  ℕ, ◌≡◌, refl, sym, ap, ◌∙◌, Bool, true, false, ◌==◌, if◌then◌else◌, arith, ◌≢◌, ◌⊎◌, inl, inr,
}
use photon_container.World.{World, Error, ok, err}
use photon_container.Photondata.Types.{Migrator, migrating}
use photon_container.Photondata.Migrator.{acquire, finish, state, reset_state}

-- The world, and which migrations have taken the lock and not ended yet.
pub record System : Type 0 where
  pub world : World
  pub running : ℕ → Bool

abbrev pub set : (ℕ → Bool) → ℕ → Bool → ℕ → Bool
set f i b j = if j == i then b else f j

pub data Step : System → System → Type 0 where
  -- `MigrateByReplace` or `MigrateByRemoveFirst` takes the lock.
  takes :
      {s : System} (i : ℕ)
      → s.running i ≡ false
      → (acquire s.world).0 ≡ ok tt
      → Step s (record { world = (acquire s.world).1; running = set s.running i true })
  -- It is refused.
  refused :
      {s : System} (e : Error)
      → (acquire s.world).0 ≡ err e
      → Step s (record s { world = (acquire s.world).1 })
  -- Any call that leaves the migrator alone, by a migration or not.
  works : {s : System} (v : World) → v.migrator ≡ s.world.migrator → Step s (record s { world = v })
  -- A migration ends with success.
  finishes :
      {s : System} (i : ℕ)
      → s.running i ≡ true
      → Step s (record { world = (finish s.world).1; running = set s.running i false })
  -- It ends with an error of its file calls.
  fails :
      {s : System} (i : ℕ)
      → s.running i ≡ true
      → Step s (record s { running = set s.running i false })
  -- `State` is called.
  observes : {s : System} → Step s (record s { world = (state s.world).1 })

pub data Steps : System → System → Type 0 where
  done : {s : System} → Steps s s
  more : {s t u : System} → Steps s t → Step t u → Steps s u

pub record IsExclusive (s : System) : Type 0 where
  pub one : (i j : ℕ) → s.running i ≡ true → s.running j ≡ true → i ≡ j
  pub held : (i : ℕ) → s.running i ≡ true → s.world.migrator.state ≡ migrating

acquire_free :
    (w : World)
    → (acquire w).0 ≡ ok tt
    → (w.migrator.state ≢ migrating) × ((acquire w).1.migrator.state ≡ migrating)
unfolding acquire
acquire_free w h = ground arith

acquire_refused : (w : World) (e : Error) → (acquire w).0 ≡ err e → (acquire w).1 ≡ w
unfolding acquire
acquire_refused w e h = ground arith

state_migrating :
    (w : World) → w.migrator.state ≡ migrating → (state w).1.migrator.state ≡ migrating
unfolding state
state_migrating w h = ground arith

set-true : (f : ℕ → Bool) (i j : ℕ) → set f i true j ≡ true → (j ≡ i) ⊎ (f j ≡ true)
set-true f i j h = ground arith

set-false : (f : ℕ → Bool) (i j : ℕ) → set f i false j ≡ true → (j ≢ i) × (f j ≡ true)
set-false f i j h = ground arith

module _ {s : System} (inv : IsExclusive s) where
  none_runs :
      (w : World) → s.world ≡ w → w.migrator.state ≢ migrating → (j : ℕ) → s.running j ≢ true
  none_runs w e free j a = free (sym (ap (λ (v : World). v.migrator.state) e) ∙ inv.held j a)

  one_after_take :
      (i j k : ℕ)
      → s.world.migrator.state ≢ migrating
      → set s.running i true j ≡ true
      → set s.running i true k ≡ true
      → j ≡ k
  one_after_take i j k free a b = elim (set-true s.running i j a) [
    | inr on ↦ absurd (none_runs s.world refl free j on)
    | inl e ↦ elim (set-true s.running i k b) [
      | inr on ↦ absurd (none_runs s.world refl free k on)
      | inl f ↦ e ∙ sym f
    ]
  ]

  one_after_end :
      (i j k : ℕ) → set s.running i false j ≡ true → set s.running i false k ≡ true → j ≡ k
  one_after_end i j k a b = inv.one j k (set-false s.running i j a).1 (set-false s.running i k b).1

  none_after_end : (i j : ℕ) → s.running i ≡ true → set s.running i false j ≢ true
  none_after_end i j on a =
      (set-false s.running i j a).0 (inv.one j i (set-false s.running i j a).1 on)

Step-IsExclusive : {s t : System} → IsExclusive s → Step s t → IsExclusive t
Step-IsExclusive {s} inv (takes i idle free) = record {
  one = λ j k. one_after_take inv i j k (acquire_free s.world free).0;
  held = λ j a. (acquire_free s.world free).1;
}
Step-IsExclusive {s} inv (refused e busy) = record {
  one = inv.one;
  held =
      λ i a. ap (λ (w : World). w.migrator.state) (acquire_refused s.world e busy) ∙ inv.held i a;
}
Step-IsExclusive {s} inv (works v same) = record {
  one = inv.one;
  held = λ i a. ap (λ (m : Migrator). m.state) same ∙ inv.held i a;
}
Step-IsExclusive {s} inv (finishes i on) = record {
  one = one_after_end inv i;
  held = λ j a. absurd (none_after_end inv i j on a);
}
Step-IsExclusive {s} inv (fails i on) = record {
  one = one_after_end inv i;
  held = λ j a. inv.held j (set-false s.running i j a).1;
}
Step-IsExclusive {s} inv observes = record {
  one = inv.one;
  held = λ i a. state_migrating s.world (inv.held i a);
}

-- As long as nobody resets the state, two migrations never run at the same time, whatever the order
-- of the steps of however many: after any steps from a system in which none runs, those that have
-- the lock are one at most, and while one has it the state is migrating.
pub Steps-IsExclusive : (s t : System) → ((i : ℕ) → s.running i ≡ false) → Steps s t → IsExclusive t
Steps-IsExclusive s t idle done = record {
  one = λ i j a b. ground (arith, a, idle i);
  held = λ i a. ground (arith, a, idle i);
}
Steps-IsExclusive s t idle (more before last) =
    Step-IsExclusive (Steps-IsExclusive s _ idle before) last

-- After ResetState the lock can be taken, whatever the state was before: while a migration runs,
-- too.
pub reset_then_acquire : (w : World) → (acquire (reset_state w).1).0 ≡ ok tt
unfolding acquire reset_state
reset_then_acquire w = ground arith
