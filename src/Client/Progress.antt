-- ===== src/Client/Progress.antt =====
-- internal/client/photonagent/progress.go: a `Progress` that reads. Its goroutine and its counting
-- are those of internal/downloader/progress.go; `Read` first reads from its reader, and returns
-- before `Lock` if that fails, which is also what the end of a file does.
use photon_container.Base.{
  ℕ, ◌+◌, ◌≤◌, ◌<◌, ◌^◌, ◌≡◌, refl, sym, subst, ap, ◌∙◌, ◌++◌, Bool, true, false, Option, none,
  some, List, [], ◌∷◌, arith,
}
use photon_container.Downloader.Progress.{
  Progress, Event, Caller, outside, entering, counting, new_progress, step, run, written,
}
use photon_container.Downloader.Progress.Blocking.{GoesOn, write-GoesOn}

-- What comes next. `read n failed` is a call of `Read` up to its `Lock`, where the reader has given
-- `n` bytes, or an error.
pub data UploadEvent : Type 0 where
  tick see_stop lock_logger finish_round : UploadEvent
  read : (n : ℕ) (failed : Bool) → UploadEvent
  lock_reader finish_read stop : UploadEvent

read_failed : Caller → Progress → Option Progress
read_failed outside p = some p
read_failed (entering _) p = none
read_failed (counting _) p = none

on_read : ℕ → Bool → Progress → Option Progress
unfolding read_failed
on_read n true p = read_failed p.writer p
on_read n false p = step (Event.write n) p

unfoldable pub upload_step : UploadEvent → Progress → Option Progress
unfolding on_read
upload_step tick p = step Event.tick p
upload_step see_stop p = step Event.see_stop p
upload_step lock_logger p = step Event.lock_logger p
upload_step finish_round p = step Event.finish_round p
upload_step (read n failed) p = on_read n failed p
upload_step lock_reader p = step Event.lock_writer p
upload_step finish_read p = step Event.finish_write p
upload_step stop p = step Event.stop p

unfoldable pub upload_run : List UploadEvent → Progress → Option Progress
upload_run [] p = some p
upload_run (e ∷ rest) p = elim (upload_step e p) [ none ↦ none | some q ↦ upload_run rest q ]

-- How many bytes the reader has given without an error.
unfoldable pub read_bytes : List UploadEvent → ℕ
read_bytes [] = 0
read_bytes (read n false ∷ rest) = n + read_bytes rest
read_bytes (read n true ∷ rest) = read_bytes rest
read_bytes (tick ∷ rest) = read_bytes rest
read_bytes (see_stop ∷ rest) = read_bytes rest
read_bytes (lock_logger ∷ rest) = read_bytes rest
read_bytes (finish_round ∷ rest) = read_bytes rest
read_bytes (lock_reader ∷ rest) = read_bytes rest
read_bytes (finish_read ∷ rest) = read_bytes rest
read_bytes (stop ∷ rest) = read_bytes rest

-- The events of the counting alone: a `Read` that fails is none.
event_of : UploadEvent → List Event
event_of tick = Event.tick ∷ []
event_of see_stop = Event.see_stop ∷ []
event_of lock_logger = Event.lock_logger ∷ []
event_of finish_round = Event.finish_round ∷ []
event_of (read n true) = []
event_of (read n false) = Event.write n ∷ []
event_of lock_reader = Event.lock_writer ∷ []
event_of finish_read = Event.finish_write ∷ []
event_of stop = Event.stop ∷ []

events_of : List UploadEvent → List Event
events_of [] = []
events_of (e ∷ rest) = event_of e ++ events_of rest

run-cons_some :
    (e : Event) (rest : List Event) (p x : Progress)
    → step e p ≡ some x
    → run (e ∷ rest) p ≡ run rest x
unfolding run
run-cons_some e rest p x h = rw (h, run)

run-event_of :
    (e : UploadEvent) (rest : List Event) (p x : Progress)
    → upload_step e p ≡ some x
    → run (event_of e ++ rest) p ≡ run rest x
unfolding upload_step event_of
run-event_of tick rest p x h = run-cons_some Event.tick rest p x h
run-event_of see_stop rest p x h = run-cons_some Event.see_stop rest p x h
run-event_of lock_logger rest p x h = run-cons_some Event.lock_logger rest p x h
run-event_of finish_round rest p x h = run-cons_some Event.finish_round rest p x h
run-event_of (read n true) rest p x h = ap (run rest) (same p x h)
  where
    same : (p x : Progress) → read_failed p.writer p ≡ some x → p ≡ x
    same p x h = ground (arith, h)
run-event_of (read n false) rest p x h = run-cons_some (Event.write n) rest p x h
run-event_of lock_reader rest p x h = run-cons_some Event.lock_writer rest p x h
run-event_of finish_read rest p x h = run-cons_some Event.finish_write rest p x h
run-event_of stop rest p x h = run-cons_some Event.stop rest p x h

upload_cons :
    (r : Option Progress) (rest : List UploadEvent) {q : Progress}
    → elim r as (λ _. Option Progress) [ none ↦ none | some x ↦ upload_run rest x ] ≡ some q
    → (x : Progress) × (r ≡ some x) × (upload_run rest x ≡ some q)
upload_cons none rest h = cc
upload_cons (some x) rest h = (x, refl, h)

run-events_of :
    (events : List UploadEvent) (p q : Progress)
    → upload_run events p ≡ some q
    → run (events_of events) p ≡ some q
unfolding upload_run events_of run
run-events_of [] p q h = h
run-events_of (e ∷ rest) p q h =
    let (x, one, more) = upload_cons (upload_step e p) rest h in
    run-event_of e (events_of rest) p x one ∙ run-events_of rest x q more

written-events_of : (events : List UploadEvent) → written (events_of events) ≡ read_bytes events
unfolding written events_of event_of read_bytes
written-events_of [] = refl
written-events_of (tick ∷ rest) = written-events_of rest
written-events_of (see_stop ∷ rest) = written-events_of rest
written-events_of (lock_logger ∷ rest) = written-events_of rest
written-events_of (finish_round ∷ rest) = written-events_of rest
written-events_of (read n true ∷ rest) = written-events_of rest
written-events_of (read n false ∷ rest) = ap (λ k. n + k) (written-events_of rest)
written-events_of (lock_reader ∷ rest) = written-events_of rest
written-events_of (finish_read ∷ rest) = written-events_of rest
written-events_of (stop ∷ rest) = written-events_of rest

-- While the file that is uploaded does not grow beyond the size that it had when the upload began,
-- a `Read` that has got some bytes does not wait for ever, whatever ticks came before and whichever
-- reads failed: it gets the mutex at once, or as soon as the goroutine has ended its round.
pub read-GoesOn :
    (size n : ℕ) (events : List UploadEvent) (p : Progress)
    → size < 2 ^ 63
    → read_bytes events ≤ size
    → upload_run events (new_progress size) ≡ some p
    → p.writer ≡ entering n
    → 0 < n
    → GoesOn p
read-GoesOn size n events p small le h w pos =
    write-GoesOn size n (events_of events) p small
      (subst (λ k. k ≤ size) (sym (written-events_of events)) le)
      (run-events_of events (new_progress size) p h) w pos
