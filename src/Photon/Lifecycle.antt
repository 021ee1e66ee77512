-- ===== src/Photon/Lifecycle.antt =====
-- internal/photon/server.go: what `Start` and `Stop` bring about, alone and one after the other.
use photon_container.Base.{
  ℕ, suc, ◌≡◌, ◌∙◌, ap, true, false, Bool, Option, not, ◌&&◌, none, some, List, [], ◌∷◌, arith,
}
use photon_container.World.{World, ok, err, failed, wrap, Error}
use photon_container.Photon.Types.{
  exited, signaled, PhotonServer, Cmd, none_set, is_serving, was_killed, new_server_command,
}
use photon_container.Photon.Server.{start, stop}

-- The calls that can be made on a server, in any order.
pub data Call : Type 0 where
  call_start call_stop : Call

pub perform : World → Call → World
perform w call_start = (start w).1
perform w call_stop = (stop w).1

pub run : World → List Call → World
run w [] = w
run w (c ∷ calls) = run (perform w c) calls

pub start_of_killed : (w : World) → was_killed w.photon ≡ true → start w ≡ (ok tt, w)
unfolding start
start_of_killed w h = ground arith

pub stop-was_killed : (w : World) → was_killed w.photon ≡ true → was_killed (stop w).1.photon ≡ true
unfolding stop
stop-was_killed w h = ground arith

pub stop_kills :
    (w : World) (n : ℕ)
    → is_serving w.photon ≡ true
    → w.env.ending w.now ≡ signaled n
    → was_killed (stop w).1.photon ≡ true
unfolding stop
stop_kills w n h e = ground arith

perform-was_killed :
    (w : World) (c : Call) → was_killed w.photon ≡ true → was_killed (perform w c).photon ≡ true
unfolding perform
perform-was_killed w call_start h = ap (λ r. was_killed r.1.photon) (start_of_killed w h) ∙ h
perform-was_killed w call_stop h = stop-was_killed w h

run-was_killed :
    (w : World) (calls : List Call)
    → was_killed w.photon ≡ true
    → was_killed (run w calls).photon ≡ true
unfolding run
run-was_killed w [] h = h
run-was_killed w (c ∷ calls) h = run-was_killed (perform w c) calls (perform-was_killed w c h)

not-serving_of_killed : (s : PhotonServer) → was_killed s ≡ true → is_serving s ≡ false
not-serving_of_killed s h = ground arith

lost_command : Option Cmd → Bool
lost_command none = false
lost_command (some c) = not c.started && c.cancelled && none_set c.process_state

perform-lost_command :
    (w : World) (c : Call)
    → lost_command w.photon.photon_server ≡ true
    → lost_command (perform w c).photon.photon_server ≡ true
unfolding perform lost_command start stop
perform-lost_command w call_start h = ground arith
perform-lost_command w call_stop h = ground arith

run-lost_command :
    (w : World) (calls : List Call)
    → lost_command w.photon.photon_server ≡ true
    → lost_command (run w calls).photon.photon_server ≡ true
unfolding run
run-lost_command w [] h = h
run-lost_command w (c ∷ calls) h = run-lost_command (perform w c) calls (perform-lost_command w c h)

start-lost_command :
    (w : World)
    → lost_command w.photon.photon_server ≡ true
    → (start w).0
      ≡ err (
          wrap "photon.PhotonServer.Start: failed to start Photon server"
            (failed "context canceled"))
unfolding lost_command start
start-lost_command w h = ground arith

lost_after_stop :
    (w : World) {e : Error}
    → w.photon.photon_server ≡ none
    → (start w).0 ≡ err e
    → lost_command (stop (start w).1).1.photon.photon_server ≡ true
unfolding lost_command start stop new_server_command
lost_after_stop w n h = ground arith

-- If the first Start of a server fails and Stop follows it, then every later Start fails, whatever
-- calls come in between: the command that was never started stays, and its context is cancelled.
pub cancelled_forever :
    (w : World) (e : Error) (calls : List Call)
    → w.photon.photon_server ≡ none
    → (start w).0 ≡ err e
    → (start (run (start w).1 (call_stop ∷ calls))).0
      ≡ err (
          wrap "photon.PhotonServer.Start: failed to start Photon server"
            (failed "context canceled"))
unfolding run perform
cancelled_forever w e calls n h =
    start-lost_command (run (stop (start w).1).1 calls)
      (run-lost_command (stop (start w).1).1 calls (lost_after_stop w n h))

-- If the process that serves is ended by a signal when `Stop` waits for it, then no sequence of
-- calls of `Start` and `Stop` makes a process serve again, though the next `Start` reports success.
pub killed_forever :
    (w : World) (n : ℕ) (calls : List Call)
    → is_serving w.photon ≡ true
    → w.env.ending w.now ≡ signaled n
    → ((start (stop w).1).0 ≡ ok tt)
      × (is_serving (run w (call_stop ∷ call_start ∷ calls)).photon ≡ false)
unfolding run perform
killed_forever w n calls h e =
    let k = stop_kills w n h e in
    let again = perform-was_killed (stop w).1 call_start k in
    (
      ap (λ r. r.0) (start_of_killed (stop w).1 k),
      not-serving_of_killed (run (start (stop w).1).1 calls).photon
          (run-was_killed (start (stop w).1).1 calls again),
    )

-- If a process serves, the process that `Stop` waits for ends by itself, and the launch that
-- follows meets no fault, then Start after Stop reports no error, runs the command line of the
-- configuration, and leaves a process that serves.
pub restart_serves :
    (w : World) (n : ℕ)
    → is_serving w.photon ≡ true
    → w.env.ending w.now ≡ exited n
    → w.env.fault (suc w.now) ≡ false
    → ((start (stop w).1).0 ≡ ok tt)
      × ((start (stop w).1).1.photon.photon_server
          ≡ some (record (new_server_command w.photon) { started = true }))
      × (is_serving (start (stop w).1).1.photon ≡ true)
unfolding start stop new_server_command
restart_serves w n h e f = ground arith
