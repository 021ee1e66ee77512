-- ===== src/Photon/Rules.antt =====
-- internal/photon/server.go: `Start` and `Stop` as steps of the methods that call them.
use photon_container.Base.{◌≡◌, true, false, ◌⊎◌, arith}
use photon_container.World.{World}
use photon_container.World.Rules.{Ensures}
use photon_container.Photon.Types.{is_serving, was_killed, new_server_command}
use photon_container.Photon.Server.{start, stop}

-- The second world differs from the first in the photon server and the number of the next call.
pub record SameData (v w : World) : Type 0 where
  pub files : w.files ≡ v.files
  pub migrator : w.migrator ≡ v.migrator

pub stop_rule :
    (w : World) → Ensures (λ _ v. SameData w v × (is_serving v.photon ≡ false)) (λ _ _. ⊥) (stop w)
unfolding stop
stop_rule w = ground arith

pub start_rule :
    (w : World)
    → is_serving w.photon ≡ false
    → Ensures
        (λ _ v. SameData w v × ((is_serving v.photon ≡ true) ⊎ (was_killed v.photon ≡ true)))
        (λ _ v. SameData w v × (is_serving v.photon ≡ false))
        (start w)
unfolding start new_server_command
start_rule w h = ground arith
