-- ===== src/Examples/Logs.antt =====
-- The access log of internal/logging, of requests to the agent and of a handler that is not its
-- own.
use photon_container.Base.{◌≡◌, refl, false, some, none, List, [], ◌∷◌, ℕ, eq_iff, arith}
use photon_container.Examples.{env, world, archive, downloader, unarchiver, root}
use photon_container.Logging.AccessLog.{agent_calls, agent_logged, use_next-writes_only}
use photon_container.Logging.Middleware.{
  Call, write, AccessLogMiddleware, new_access_log_middleware, use_next, use_next-transparent,
  is_ignore_path, finished, write_all, nothing,
}
use photon_container.Logging.Setup.{
  Logger, Format, stdout, stderr, info, configure, parse_level, new_handler, new_context,
  from_context,
}
use photon_container.Os.Files.{Reader}
use photon_container.Photon.Types.{exited}
use photon_container.Photondata.Types.{migrated}
use photon_container.Server.Handlers.{Answer, text, answer, empty, serve}
use photon_container.Updater.Entry.{Updater, in_parallel}
use photon_container.World.{World, Method, ok}

abbrev logger : Logger
logger = record {
  format = Format.json;
  out = stderr;
  options = record { level = info; add_source = false };
}

-- The output that `Configure` is given is not the one that it uses.
other_output : configure "info" "json" stdout ≡ ok logger
unfolding configure parse_level new_handler
other_output = refl

latest_logger : (l m : Logger) → from_context l (new_context (new_context [] l) m) ≡ m
unfolding from_context new_context
latest_logger l m = refl

abbrev calm : World
calm = world (env [] (exited 143)) migrated

abbrev updater : Updater
updater = record {
  updater_impl =
      in_parallel
        (record { downloader = downloader; unarchiver = unarchiver; photon_data_dir = root });
  downloader = downloader;
}

abbrev metrics : World → Answer × World
metrics w = (answer 200 empty, w)

abbrev no_body : Reader
no_body = record { content = []; broken = false }

agent_logged_example :
    (let ((sent, line), left) =
        use_next
          (new_access_log_middleware logger)
          (agent_calls updater archive metrics Method.put "/migrate/status" [] no_body)
          "/migrate/status"
          calm in
      let ((r, go), v) =
        serve updater archive metrics Method.put "/migrate/status" [] no_body calm in
      (sent.status ≡ r.status)
      × (line
          ≡ some (record { to = logger; url_path = "/migrate/status"; logged_status = r.status }))
      × (left ≡ (go, v)))
agent_logged_example =
    agent_logged updater archive metrics logger Method.put "/migrate/status" [] no_body calm
      (λ p. ground (arith, (eq_iff "/migrate/status" "/metrics").1 p))

-- The log of everything below /healthz is left out.
abbrev quiet : AccessLogMiddleware
quiet = record { logger = logger; ignore_path_prefixes = "/healthz" ∷ [] }

abbrev silent : ℕ → List Call × ℕ
silent n = (write (text "go_info 1") ∷ [], n)

use_next-writes_only_example :
    ((use_next quiet silent "/metrics" 3).0.0.status ≡ 200)
    × ((use_next quiet silent "/metrics" 3).0.1
        ≡ some (record { to = logger; url_path = "/metrics"; logged_status = 0 }))
unfolding is_ignore_path
use_next-writes_only_example =
    use_next-writes_only quiet silent "/metrics" 3 (text "go_info 1" ∷ []) refl refl

use_next-transparent_example :
    ((use_next quiet silent "/healthz/x" 3).0.0 ≡ finished (write_all (silent 3).0 nothing))
    × ((use_next quiet silent "/healthz/x" 3).1 ≡ 3)
use_next-transparent_example = use_next-transparent quiet silent "/healthz/x" 3

ignored_run : (use_next quiet silent "/healthz/x" 3).0.1 ≡ none
unfolding use_next is_ignore_path
ignored_run = refl
