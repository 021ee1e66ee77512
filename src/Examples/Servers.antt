-- ===== src/Examples/Servers.antt =====
-- The theorems on the server of internal/photon at concrete data.
use photon_container.Base.{◌≡◌, refl, false, none, [], ◌∷◌}
use photon_container.Examples.{env, world}
use photon_container.Photon.Lifecycle.{
  call_start, call_stop, run, killed_forever, cancelled_forever,
}
use photon_container.Photon.Server.{start, stop}
use photon_container.Photon.Types.{exited, signaled, is_serving, new_server_command}
use photon_container.Photondata.Types.{migrated}
use photon_container.World.{World, ok, err, failed, wrap}

-- The process ends by SIGTERM, with an exit code of its own.
abbrev calm : World
calm = world (env [] (exited 143)) migrated

-- The process is killed, as it is if it does not end in time.
abbrev stubborn : World
stubborn = world (env [] (signaled 9)) migrated

abbrev stopped : World
stopped = (stop calm).1

killed_forever_example :
    ((start (stop stubborn).1).0 ≡ ok tt)
    × (is_serving (run stubborn (call_stop ∷ call_start ∷ call_start ∷ [])).photon ≡ false)
killed_forever_example = killed_forever stubborn 9 (call_start ∷ []) refl refl

-- The first launch of a server fails.
abbrev unlucky : World
unlucky = record (world (env (0 ∷ []) (exited 143)) migrated) {
  photon = record calm.photon { photon_server = none };
}

cancelled_forever_example :
    (start (run (start unlucky).1 (call_stop ∷ call_stop ∷ call_start ∷ []))).0
    ≡ err (
        wrap "photon.PhotonServer.Start: failed to start Photon server" (failed "context canceled"))
unfolding start new_server_command
cancelled_forever_example =
    cancelled_forever unlucky
      (wrap "photon.PhotonServer.Start: failed to start Photon server" (failed "fork"))
      (call_stop ∷ call_start ∷ []) refl refl
