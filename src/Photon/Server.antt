-- ===== src/Photon/Server.antt =====
-- internal/photon/server.go: the methods of a `PhotonServer`. Each holds the mutex to its end, so
-- it is one step.
use photon_container.Base.{suc, Bool, true, false, Option, none, some, if◌then◌else◌}
use photon_container.World.{World, M, ok, err, failed, wrapped}
use photon_container.Photon.Types.{ProcessState, is_exited, Cmd, PhotonServer, new_server_command}

abbrev set_cmd : Cmd → World → World
set_cmd c w = record w { photon = record w.photon { photon_server = some c } }

-- `exec.Cmd.Start`: once only, and not after the context was cancelled.
abbrev start_cmd : Cmd → M (Unit {0})
start_cmd c w =
    if c.started
    then (err (failed "exec: already started"), w)
    else if c.cancelled
    then (err (failed "context canceled"), w)
    else if w.env.fault w.now
    then (err (failed "fork"), record w { now = suc w.now })
    else (ok tt, set_cmd (record c { started = true }) (record w { now = suc w.now }))

launch : Cmd → M (Unit {0})
unfolding wrapped
launch c w =
    wrapped "photon.PhotonServer.Start: failed to start Photon server" (start_cmd c) (set_cmd c w)

start_ended : Cmd → Option ProcessState → M (Unit {0})
unfolding launch new_server_command
start_ended c none w = launch c w
start_ended c (some ended) w =
    if is_exited ended then launch (new_server_command w.photon) w else (ok tt, w)

start_set : Option Cmd → M (Unit {0})
unfolding launch new_server_command start_ended
start_set none w = launch (new_server_command w.photon) w
start_set (some c) w = start_ended c c.process_state w

-- `Start`
unfoldable pub start : M (Unit {0})
unfolding start_set
start w = start_set w.photon.photon_server w

-- `exec.Cmd.Wait`, whose error is only logged: it waits once, for a process that was started.
abbrev wait_ended : Cmd → Option ProcessState → World → World
wait_ended c (some _) w = set_cmd c w
wait_ended c none w =
    if c.started
    then set_cmd (record c { process_state = some (w.env.ending w.now) })
        (record w { now = suc w.now })
    else set_cmd c w

stop_set : Option Cmd → M (Unit {0})
stop_set none w = (ok tt, w)
stop_set (some c) w = (ok tt, wait_ended (record c { cancelled = true }) c.process_state w)

-- `Stop`
unfoldable pub stop : M (Unit {0})
unfolding stop_set
stop w = stop_set w.photon.photon_server w

abbrev ended_by_itself : Option ProcessState → Bool
ended_by_itself none = false
ended_by_itself (some p) = is_exited p

running_set : Option Cmd → Bool
running_set none = false
running_set (some c) = ended_by_itself c.process_state

-- `Running`
unfoldable pub running : PhotonServer → Bool
unfolding running_set
running s = running_set s.photon_server
