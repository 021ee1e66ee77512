-- ===== src/Examples/Progresses.antt =====
-- The progress of downloads and uploads, and the time of the latest database, at concrete data.
use photon_container.Base.{◌≡◌, refl, ◌+◌, ◌≤◌, true, false, List, [], ◌∷◌, arith}
use photon_container.Client.Progress.{UploadEvent, read-GoesOn, upload_run, upload_step, read_bytes}
use photon_container.Downloader.Progress.{
  Progress, Event, tick, lock_logger, finish_round, write, lock_writer, finish_write, stop, logging,
  waiting, returned, entering, outside, nobody, logger, new_progress, run, step, written,
}
use photon_container.Downloader.Progress.Blocking.{
  GoesOn, write-GoesOn, bytes_read-written, write_blocks,
}

-- Four bytes of six, a line of the log, and two more bytes.
abbrev events : List Event
events = write 4 ∷ lock_writer ∷ finish_write ∷ tick ∷ lock_logger ∷ finish_round ∷ write 2 ∷ []

abbrev half_way : Progress
half_way = record {
  total_bytes = 6;
  bytes_read = 4;
  mutex = nobody;
  stopped = false;
  goroutine = waiting;
  writer = entering 2;
}

write-GoesOn_example : GoesOn half_way
unfolding run step new_progress written
write-GoesOn_example =
    write-GoesOn 6 2 events half_way (omega arith) (omega arith) refl refl (omega arith)

bytes_read-written_example : (half_way.bytes_read + 2 ≡ written events) × (half_way.bytes_read ≤ 6)
unfolding run step new_progress written
bytes_read-written_example = bytes_read-written 6 events half_way (omega arith) (omega arith) refl

-- The goroutine has seen all four bytes.
abbrev last_round : Progress
last_round = record {
  total_bytes = 4;
  bytes_read = 4;
  mutex = logger;
  stopped = false;
  goroutine = logging;
  writer = outside;
}

abbrev blocked : Progress
blocked = record last_round { goroutine = returned; writer = entering 1; stopped = true }

write_blocks_example : (blocked.writer ≡ entering 1) × (blocked.goroutine ≡ returned)
unfolding run step
write_blocks_example = write_blocks 1 (stop ∷ []) last_round blocked refl refl refl refl

abbrev upload_events : List UploadEvent
upload_events =
    UploadEvent.read 4 false
    ∷ UploadEvent.lock_reader
    ∷ UploadEvent.finish_read
    ∷ UploadEvent.tick
    ∷ UploadEvent.lock_logger
    ∷ UploadEvent.finish_round
    ∷ UploadEvent.read 0 true
    ∷ UploadEvent.read 2 false
    ∷ []

read-GoesOn_example : GoesOn half_way
unfolding upload_run upload_step step new_progress read_bytes
read-GoesOn_example =
    read-GoesOn 6 2 upload_events half_way (omega arith) (omega arith) refl refl (omega arith)
