-- ===== src/Downloader/Progress/Blocking.antt =====
-- internal/downloader/progress.go: when a `Write` waits for the mutex, and when it waits for ever.
use photon_container.Base.{
  ℕ, ◌+◌, ◌≤◌, ◌<◌, ◌^◌, ◌≡◌, refl, subst, ◌⊎◌, inl, inr, Bool, true, false, Option, none, some,
  List, [], ◌∷◌, arith,
}
use photon_container.Downloader.Progress.{
  Progress, Event, tick, see_stop, lock_logger, finish_round, write, lock_writer, finish_write,
  stop, waiting, logging, returned, Caller, outside, entering, counting, Owner, nobody, logger,
  caller, new_progress, step, run, written,
}

abbrev pending : Caller → ℕ
pending outside = 0
pending (entering n) = n
pending (counting n) = n

abbrev is_counting : Caller → Bool
is_counting outside = false
is_counting (entering _) = false
is_counting (counting _) = true

-- The state once `Write` was given `given` bytes.
record Counts (total given : ℕ) (p : Progress) : Type 0 where
  same_total : p.total_bytes ≡ total
  counted : p.bytes_read + pending p.writer ≡ given
  counting_holds : is_counting p.writer ≡ true → p.mutex ≡ caller
  caller_holds : p.mutex ≡ caller → is_counting p.writer ≡ true
  logging_holds : p.goroutine ≡ logging → p.mutex ≡ logger
  logger_holds :
      p.mutex ≡ logger
      → (p.goroutine ≡ logging) ⊎ ((p.goroutine ≡ returned) × (p.bytes_read ≡ total))

abbrev given_by : Event → ℕ
given_by (write n) = n
given_by tick = 0
given_by see_stop = 0
given_by lock_logger = 0
given_by finish_round = 0
given_by lock_writer = 0
given_by finish_write = 0
given_by stop = 0

step-Counts :
    (e : Event) (total given : ℕ) (p q : Progress)
    → total < 2 ^ 63
    → given ≤ total
    → Counts total given p
    → step e p ≡ some q
    → Counts total (given + given_by e) q
unfolding step
step-Counts tick total given p q small le c h =
    ground (arith, c.counting_holds, c.caller_holds, c.logging_holds, c.logger_holds)
step-Counts see_stop total given p q small le c h =
    ground (arith, c.counting_holds, c.caller_holds, c.logging_holds, c.logger_holds)
step-Counts lock_logger total given p q small le c h =
    ground (arith, c.counting_holds, c.caller_holds, c.logging_holds, c.logger_holds)
step-Counts finish_round total given p q small le c h =
    ground (arith, c.counting_holds, c.caller_holds, c.logging_holds, c.logger_holds)
step-Counts (write n) total given p q small le c h =
    ground (arith, c.counting_holds, c.caller_holds, c.logging_holds, c.logger_holds)
step-Counts lock_writer total given p q small le c h =
    ground (arith, c.counting_holds, c.caller_holds, c.logging_holds, c.logger_holds)
step-Counts finish_write total given p q small le c h =
    ground (arith, c.counting_holds, c.caller_holds, c.logging_holds, c.logger_holds)
step-Counts stop total given p q small le c h =
    ground (arith, c.counting_holds, c.caller_holds, c.logging_holds, c.logger_holds)

written-cons : (e : Event) (rest : List Event) → written (e ∷ rest) ≡ given_by e + written rest
unfolding written
written-cons (write n) rest = refl
written-cons tick rest = omega arith
written-cons see_stop rest = omega arith
written-cons lock_logger rest = omega arith
written-cons finish_round rest = omega arith
written-cons lock_writer rest = omega arith
written-cons finish_write rest = omega arith
written-cons stop rest = omega arith

unrun :
    (r : Option Progress) (rest : List Event) {q : Progress}
    → elim r as (λ _. Option Progress) [ none ↦ none | some x ↦ run rest x ] ≡ some q
    → (x : Progress) × (r ≡ some x) × (run rest x ≡ some q)
unrun none rest h = cc
unrun (some x) rest h = (x, refl, h)

run-cons :
    (e : Event) (rest : List Event) (p : Progress) {q : Progress}
    → run (e ∷ rest) p ≡ some q
    → (x : Progress) × (step e p ≡ some x) × (run rest x ≡ some q)
unfolding run
run-cons e rest p h = unrun (step e p) rest h

run-Counts :
    (events : List Event) (total given : ℕ) (p q : Progress)
    → total < 2 ^ 63
    → given + written events ≤ total
    → Counts total given p
    → run events p ≡ some q
    → Counts total (given + written events) q
unfolding run written
run-Counts [] total given p q small le c h =
    ground (arith, h, c.counting_holds, c.caller_holds, c.logging_holds, c.logger_holds)
run-Counts (e ∷ rest) total given p q small le c h =
    let (x, one, more) = run-cons e rest p h in
    subst (λ k. Counts total k q) (omega (arith, written-cons e rest))
      (run-Counts rest total (given + given_by e) x q small (omega (arith, written-cons e rest))
        (step-Counts e total given p x small (omega arith) c one) more)

new_progress-Counts : (total : ℕ) → Counts total 0 (new_progress total)
unfolding new_progress
new_progress-Counts total = ground arith

abbrev CanLock : Progress → Type 0
CanLock p = (q : Progress) × (step lock_writer p ≡ some q)

-- The caller can take the mutex, at once or when the goroutine has come to the end of its round.
abbrev pub GoesOn : Progress → Type 0
GoesOn p = CanLock p ⊎ ((q : Progress) × (step finish_round p ≡ some q) × CanLock q)

module _ (total given n : ℕ) (p : Progress) (c : Counts total given p) (le : given ≤ total)
    (w : p.writer ≡ entering n) (pos : 0 < n) where
  by_owner : (m : Owner) → p.mutex ≡ m → GoesOn p
  unfolding step
  by_owner nobody e = inl (record p { mutex = caller; writer = counting n }, ground arith)
  by_owner caller e = absurd (ground (arith, c.caller_holds e))
  by_owner logger e = inr (
    record p { mutex = nobody; goroutine = waiting },
    ground (arith, c.logger_holds e),
    (record p { mutex = caller; goroutine = waiting; writer = counting n }, ground arith),
  )

  Counts-GoesOn : GoesOn p
  Counts-GoesOn = by_owner p.mutex refl

-- While a download stays within the length that its response states, a call of `Write` with some
-- bytes does not wait for ever, whatever ticks came before: after any events from the start, where
-- all bytes that `Write` was given, those of this call included, are at most the total, the
-- caller gets the mutex at once, or as soon as the goroutine has ended its round.
pub write-GoesOn :
    (total n : ℕ) (events : List Event) (p : Progress)
    → total < 2 ^ 63
    → written events ≤ total
    → run events (new_progress total) ≡ some p
    → p.writer ≡ entering n
    → 0 < n
    → GoesOn p
write-GoesOn total n events p small le h w pos =
    Counts-GoesOn total (0 + written events) n p
      (run-Counts events total 0 (new_progress total) p small (omega arith)
        (new_progress-Counts total) h)
      (omega arith) w pos

-- What the log is told: within the total, the bytes counted are those that `Write` was given, less
-- those of a call that has not come to its end, so never more than the total.
pub bytes_read-written :
    (total : ℕ) (events : List Event) (p : Progress)
    → total < 2 ^ 63
    → written events ≤ total
    → run events (new_progress total) ≡ some p
    → (p.bytes_read + pending p.writer ≡ written events) × (p.bytes_read ≤ total)
bytes_read-written total events p small le h =
    let c =
      run-Counts events total 0 (new_progress total) p small (omega arith)
        (new_progress-Counts total) h in
    (omega (arith, c.counted), omega (arith, c.counted))

-- The goroutine has returned with the mutex.
abbrev Abandoned : ℕ → Progress → Type 0
Abandoned n p = (p.goroutine ≡ returned) × (p.mutex ≡ logger) × (p.writer ≡ entering n)

step-Abandoned :
    (e : Event) (n : ℕ) (p q : Progress) → Abandoned n p → step e p ≡ some q → Abandoned n q
unfolding step
step-Abandoned tick n p q a h = ground arith
step-Abandoned see_stop n p q a h = ground arith
step-Abandoned lock_logger n p q a h = ground arith
step-Abandoned finish_round n p q a h = ground arith
step-Abandoned (write m) n p q a h = ground arith
step-Abandoned lock_writer n p q a h = ground arith
step-Abandoned finish_write n p q a h = ground arith
step-Abandoned stop n p q a h = ground arith

run-Abandoned :
    (events : List Event) (n : ℕ) (p q : Progress)
    → Abandoned n p
    → run events p ≡ some q
    → Abandoned n q
unfolding run
run-Abandoned [] n p q a h = ground (arith, h)
run-Abandoned (e ∷ rest) n p q a h =
    let (x, one, more) = run-cons e rest p h in
    run-Abandoned rest n x q (step-Abandoned e n p x a one) more

last_round :
    (n : ℕ) (p x y : Progress)
    → p.goroutine ≡ logging
    → p.mutex ≡ logger
    → p.bytes_read ≡ p.total_bytes
    → step finish_round p ≡ some x
    → step (write n) x ≡ some y
    → Abandoned n y
unfolding step
last_round n p x y g m all s t = ground arith

-- Once the goroutine has found that all bytes are read, a later call of `Write` never gets past its
-- `Lock`, whatever happens: the goroutine has returned, and keeps the mutex.
pub write_blocks :
    (n : ℕ) (events : List Event) (p q : Progress)
    → p.goroutine ≡ logging
    → p.mutex ≡ logger
    → p.bytes_read ≡ p.total_bytes
    → run (finish_round ∷ write n ∷ events) p ≡ some q
    → (q.writer ≡ entering n) × (q.goroutine ≡ returned)
write_blocks n events p q g m all h =
    let (x, one, more) = run-cons finish_round (write n ∷ events) p h in
    let (y, two, rest) = run-cons (write n) events x more in
    let a = run-Abandoned events n y q (last_round n p x y g m all one two) rest in (a.2, a.0)
