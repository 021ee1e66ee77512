-- ===== src/Downloader/Progress.antt =====
-- internal/downloader/progress.go: a `Progress`, with the goroutine that `NewProgress` starts and a
-- caller of `Write`, a step at a time. An int64 is its 64 bits, so that of -1, the length of a
-- response that states none, is 2 ^ 64 - 1.
pub mod Blocking
use photon_container.Base.{
  ℕ, ◌≡◌, refl, ◌+◌, ◌%◌, ◌^◌, Bool, true, false, Option, none, some, List, [], ◌∷◌, ◌==◌,
  if◌then◌else◌,
}

-- The goroutine: at its `select`, at `Lock` after a tick, behind it, or back from its function.
pub data Logger : Type 0 where
  waiting locking logging returned : Logger

-- The caller of `Write`: outside of it, at its `Lock`, or behind it, with the length of the bytes.
pub data Caller : Type 0 where
  outside : Caller
  entering counting : (n : ℕ) → Caller

pub data Owner : Type 0 where
  nobody logger caller : Owner

pub record Progress : Type 0 where
  pub total_bytes : ℕ
  pub bytes_read : ℕ
  pub mutex : Owner
  pub stopped : Bool  -- `stopCh` is closed
  pub goroutine : Logger
  pub writer : Caller

-- `NewProgress`
unfoldable pub new_progress : ℕ → Progress
new_progress total = record {
  total_bytes = total;
  bytes_read = 0;
  mutex = nobody;
  stopped = false;
  goroutine = waiting;
  writer = outside;
}

-- What comes next: the ticker, the closed channel, `Lock` by the goroutine, the rest of its round,
-- a call of `Write`, its `Lock`, the rest of it, and `Stop`.
pub data Event : Type 0 where
  tick see_stop lock_logger finish_round : Event
  write : (n : ℕ) → Event
  lock_writer finish_write stop : Event

on_tick : Logger → Progress → Option Progress
on_tick waiting p = some (record p { goroutine = locking })
on_tick locking p = none
on_tick logging p = none
on_tick returned p = none

on_see_stop : Logger → Progress → Option Progress
on_see_stop waiting p = if p.stopped then some (record p { goroutine = returned }) else none
on_see_stop locking p = none
on_see_stop logging p = none
on_see_stop returned p = none

-- `Lock`, which waits while the mutex is held.
lock : Owner → Progress → Option Progress
lock nobody p = some p
lock logger p = none
lock caller p = none

on_lock_logger : Logger → Progress → Option Progress
unfolding lock
on_lock_logger locking p = lock p.mutex (record p { mutex = logger; goroutine = logging })
on_lock_logger waiting p = none
on_lock_logger logging p = none
on_lock_logger returned p = none

-- Behind `Lock`: `return` if all bytes were read, without `Unlock`; or a line of the log.
finish_round_of : Logger → Progress → Option Progress
finish_round_of logging p = some (
    if p.bytes_read == p.total_bytes
    then record p { goroutine = returned }
    else record p { mutex = nobody; goroutine = waiting })
finish_round_of waiting p = none
finish_round_of locking p = none
finish_round_of returned p = none

on_write : ℕ → Caller → Progress → Option Progress
on_write n outside p = some (record p { writer = entering n })
on_write n (entering _) p = none
on_write n (counting _) p = none

on_lock_writer : Caller → Progress → Option Progress
unfolding lock
on_lock_writer (entering n) p = lock p.mutex (record p { mutex = caller; writer = counting n })
on_lock_writer outside p = none
on_lock_writer (counting _) p = none

on_finish_write : Caller → Progress → Option Progress
on_finish_write (counting n) p =
    some (record p { bytes_read = (p.bytes_read + n) % 2 ^ 64; mutex = nobody; writer = outside })
on_finish_write outside p = none
on_finish_write (entering _) p = none

-- `close`, which panics the second time: `Stop` is deferred once.
on_stop : Progress → Option Progress
on_stop p = if p.stopped then none else some (record p { stopped = true })

-- `none` if it cannot come next.
unfoldable pub step : Event → Progress → Option Progress
unfolding on_tick on_see_stop on_lock_logger finish_round_of on_write on_lock_writer on_finish_write
    on_stop
step tick p = on_tick p.goroutine p
step see_stop p = on_see_stop p.goroutine p
step lock_logger p = on_lock_logger p.goroutine p
step finish_round p = finish_round_of p.goroutine p
step (write n) p = on_write n p.writer p
step lock_writer p = on_lock_writer p.writer p
step finish_write p = on_finish_write p.writer p
step stop p = on_stop p

-- The events one after the other; `none` if one of them cannot come.
unfoldable pub run : List Event → Progress → Option Progress
run [] p = some p
run (e ∷ rest) p = elim (step e p) [ none ↦ none | some q ↦ run rest q ]

-- How many bytes the calls of `Write` were given.
unfoldable pub written : List Event → ℕ
written [] = 0
written (write n ∷ rest) = n + written rest
written (tick ∷ rest) = written rest
written (see_stop ∷ rest) = written rest
written (lock_logger ∷ rest) = written rest
written (finish_round ∷ rest) = written rest
written (lock_writer ∷ rest) = written rest
written (finish_write ∷ rest) = written rest
written (stop ∷ rest) = written rest

-- A tick once all is read: the goroutine has returned, and the mutex is held.
last_tick :
    run
      (write 4 ∷ lock_writer ∷ finish_write ∷ tick ∷ lock_logger ∷ finish_round ∷ [])
      (new_progress 4)
    ≡ some (record {
      total_bytes = 4;
      bytes_read = 4;
      mutex = logger;
      stopped = false;
      goroutine = returned;
      writer = outside;
    })
unfolding run step new_progress
last_tick = refl
