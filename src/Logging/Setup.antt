-- ===== src/Logging/Setup.antt =====
-- internal/logging/setup.go and context.go. A logger is what it was configured with; what it writes
-- is left to log/slog.
use photon_container.Base.{
  Bool, true, false, String, Option, none, some, List, [], ◌∷◌, str_eq, if◌then◌else◌,
}
use photon_container.World.{Result, ok, err, failed}

pub data Level : Type 0 where
  debug info warn error : Level

pub data Format : Type 0 where
  json text : Format

pub data Output : Type 0 where
  stdout stderr : Output

pub record HandlerOptions : Type 0 where
  pub level : Level
  pub add_source : Bool

pub record Logger : Type 0 where
  pub format : Format
  pub out : Output
  pub options : HandlerOptions

abbrev with_level : Level → Option HandlerOptions
with_level l = some (record { level = l; add_source = false })

-- The levels of `Configure`.
unfoldable pub parse_level : String → Option HandlerOptions
parse_level s =
    if str_eq s "debug"
    then some (record { level = debug; add_source = true })
    else if str_eq s "info"
    then with_level info
    else if str_eq s "warn"
    then with_level warn
    else if str_eq s "warning"
    then with_level warn
    else if str_eq s "error"
    then with_level error
    else if str_eq s "critical"
    then with_level error
    else none

-- The handlers of `Configure`: both write to the error output.
unfoldable pub new_handler : String → HandlerOptions → Result Logger
new_handler format options =
    if str_eq format "json"
    then ok (record { format = json; out = stderr; options = options })
    else if str_eq format "text"
    then ok (record { format = text; out = stderr; options = options })
    else err (failed "invalid log format")

abbrev pub with_handler : String → Option HandlerOptions → Result Logger
with_handler format none = err (failed "invalid log level")
with_handler format (some options) = new_handler format options

-- `Configure`
unfoldable pub configure : String → String → Output → Result Logger
configure level format out = with_handler format (parse_level level)

-- What the contexts of the program hold, the latest first.
pub data Value : Type 0 where
  logger : Logger → Value

abbrev pub Context : Type 0
Context = List Value

-- `NewContext`
unfoldable pub new_context : Context → Logger → Context
new_context ctx l = logger l ∷ ctx

-- `FromContext`, with `slog.Default` for a context without a logger.
unfoldable pub from_context : Logger → Context → Logger
from_context default [] = default
from_context default (logger l ∷ rest) = l
