-- ===== src/Photon/Types.antt =====
-- internal/photon/server.go and options.go: the state of a `PhotonServer`.
use photon_container.Base.{
  ℕ, String, Bool, true, false, not, ◌&&◌, Option, none, some, List, [], ◌∷◌, ◌++◌,
}

-- What `os.ProcessState` tells of a process that has been waited for.
pub data ProcessState : Type 0 where
  exited : ℕ → ProcessState
  signaled : ℕ → ProcessState

-- `ProcessState.Exited()`: the process ended by itself, by no signal.
abbrev pub is_exited : ProcessState → Bool
is_exited (exited _) = true
is_exited (signaled _) = false

-- An `exec.Cmd`, with the context that `CommandContext` was given.
pub record Cmd : Type 0 where
  pub args : List String
  pub started : Bool
  pub cancelled : Bool
  pub process_state : Option ProcessState

-- `stop_server` of the source cancels the context of `photon_server`, so it is that field's.
pub record PhotonServer : Type 0 where
  pub jar_path : String
  pub photon_data_dir : String
  pub photon_server : Option Cmd
  pub additional_args : List String

abbrev pub PhotonServerOption : Type 0
PhotonServerOption = PhotonServer → PhotonServer

abbrev pub with_args : List String → PhotonServerOption
with_args args s = record s { additional_args = args }

abbrev apply_options : List PhotonServerOption → PhotonServer → PhotonServer
apply_options [] s = s
apply_options (o ∷ rest) s = apply_options rest (o s)

unfoldable pub new_photon_server : String → String → List PhotonServerOption → PhotonServer
new_photon_server jar dir options =
    apply_options options
      (record { jar_path = jar; photon_data_dir = dir; photon_server = none; additional_args = [] })

-- The command of `newServerCommand`, not started yet.
unfoldable pub new_server_command : PhotonServer → Cmd
new_server_command s = record {
  args = ("-jar" ∷ s.jar_path ∷ "-data-dir" ∷ s.photon_data_dir ∷ []) ++ s.additional_args;
  started = false;
  cancelled = false;
  process_state = none;
}

abbrev pub none_set : Option ProcessState → Bool
none_set none = true
none_set (some _) = false

abbrev serves : Option Cmd → Bool
serves none = false
serves (some c) = c.started && not c.cancelled && none_set c.process_state

-- A process has been started that nobody has told to stop or waited for.
abbrev pub is_serving : PhotonServer → Bool
is_serving s = serves s.photon_server

abbrev died_by_signal : Option ProcessState → Bool
died_by_signal none = false
died_by_signal (some (exited _)) = false
died_by_signal (some (signaled _)) = true

abbrev killed : Option Cmd → Bool
killed none = false
killed (some c) = died_by_signal c.process_state

-- The last process was waited for, and a signal had ended it.
abbrev pub was_killed : PhotonServer → Bool
was_killed s = killed s.photon_server
