-- ===== src/Cmd/Variables.antt =====
-- cmd/photon-agent/main.go: the variables of the environment, as arguments.
use photon_container.Base.{
  ◌≡◌, refl, sym, ap, ◌∙◌, String, Bool, true, false, ◌||◌, Option, none, some, List, [], ◌∷◌, ◌++◌,
  str_eq, Bool-cases, inl, inr, arith, if◌then◌else◌,
}
use photon_container.Cmd.CommandLine.{
  Arguments, string_var, bool_var, default_database_url, with_disable_metrics, agent_settings,
}
use photon_container.Cmd.PhotonDbUpdater.{get_env}

-- The variables that are set, as arguments: the table has each flag and its variable.
abbrev pub set_variables : (String → String) → List (String × String) → Arguments
set_variables env [] = []
set_variables env ((name, variable) ∷ rest) =
    if str_eq (env variable) ""
    then set_variables env rest
    else (name, env variable) ∷ set_variables env rest

abbrev pub agent_variables : List (String × String)
agent_variables =
    ("log-level", "PHOTON_AGENT_LOG_LEVEL")
    ∷ ("log-format", "PHOTON_AGENT_LOG_FORMAT")
    ∷ ("database-url", "PHOTON_AGENT_DATABASE_URL")
    ∷ ("photon-jar-path", "PHOTON_AGENT_PHOTON_JAR_PATH")
    ∷ ("photon-dir", "PHOTON_AGENT_PHOTON_DIR")
    ∷ ("update-strategy", "PHOTON_AGENT_UPDATE_STRATEGY")
    ∷ ("photon-listen-ip", "PHOTON_AGENT_PHOTON_LISTEN_IP")
    ∷ ("photon-default-language", "PHOTON_AGENT_PHOTON_DEFAULT_LANGUAGE")
    ∷ ("download-speed-limit", "PHOTON_AGENT_DOWNLOAD_SPEED_LIMIT")
    ∷ ("io-speed-limit", "PHOTON_AGENT_IO_SPEED_LIMIT")
    ∷ []

module _ (env : String → String) (args : Arguments) where
  -- What a flag comes to after the variables.
  abbrev looked_up : List (String × String) → String → String → String
  looked_up [] name default = default
  looked_up ((n, variable) ∷ rest) name default =
      looked_up rest name (if str_eq n name then get_env env variable default else default)

  abbrev is_named : List (String × String) → String → Bool
  is_named [] name = false
  is_named ((n, _) ∷ rest) name = str_eq n name || is_named rest name

  either_way : (b : Bool) (d : String) → d ≡ (if b then d else d)
  either_way true d = refl
  either_way false d = refl

  string_var-set_variables :
      (table : List (String × String)) (name default : String)
      → string_var (set_variables env table ++ args) name default
        ≡ string_var args name (looked_up table name default)
  unfolding get_env
  string_var-set_variables [] name default = refl
  string_var-set_variables ((n, variable) ∷ rest) name default =
      elim (Bool-cases (str_eq (env variable) "")) [
        | inl e ↦ rw e (
            string_var-set_variables rest name default
            ∙ ap (λ d. string_var args name (looked_up rest name d))
                (either_way (str_eq n name) default))
        | inr e ↦ rw e (string_var-set_variables rest name _)
      ]

  bool_var-set_variables :
      (table : List (String × String)) (name : String) (value : Option Bool)
      → is_named table name ≡ false
      → bool_var (set_variables env table ++ args) name value ≡ bool_var args name value
  bool_var-set_variables [] name value h = refl
  bool_var-set_variables ((n, variable) ∷ rest) name value h =
      elim (Bool-cases (str_eq (env variable) "")) [
        | inl e ↦ rw e (bool_var-set_variables rest name value (ground (arith, h)))
        | inr e ↦
            let other : str_eq n name ≡ false = ground (arith, h) in
            rw e (rw (other, bool_var) (bool_var-set_variables rest name value (ground (arith, h))))
      ]

module _ (env : String → String) (args : Arguments) where
  in_front :
      (name default : String)
      → string_var args name (looked_up env args agent_variables name default)
        ≡ string_var (set_variables env agent_variables ++ args) name default
  in_front name default = sym (string_var-set_variables env args agent_variables name default)

  settings_in_front :
      (value : Option Bool)
      → with_disable_metrics env args value
        ≡ with_disable_metrics (λ _. "") (set_variables env agent_variables ++ args) value
  unfolding get_env
  settings_in_front none = refl
  settings_in_front (some disabled) = λ i. some (record {
    log_level = in_front "log-level" "info" i;
    log_format = in_front "log-format" "json" i;
    database_url = in_front "database-url" default_database_url i;
    listen_ip = in_front "photon-listen-ip" "127.0.0.1" i;
    default_language = in_front "photon-default-language" "en" i;
    update_strategy = in_front "update-strategy" "sequential" i;
    download_speed_limit = in_front "download-speed-limit" "" i;
    io_speed_limit = in_front "io-speed-limit" "" i;
    photon_jar_path = in_front "photon-jar-path" "/photon/photon.jar" i;
    photon_dir = in_front "photon-dir" "/photon" i;
    disable_metrics = disabled;
  })

  -- A variable of the environment is an argument in front of the command line: the settings that the
  -- agent has of its environment and its arguments are those that it has, with no variable set, of
  -- the variables that are set, as arguments, and then of its own, whether they can be parsed or not.
  pub agent_settings-set_variables :
      agent_settings env args ≡ agent_settings (λ _. "") (set_variables env agent_variables ++ args)
  unfolding agent_settings
  agent_settings-set_variables =
      settings_in_front (bool_var args "disable-metrics" (some false))
      ∙ ap (with_disable_metrics (λ _. "") (set_variables env agent_variables ++ args)) (
          sym (bool_var-set_variables env args agent_variables "disable-metrics" (some false) refl))
