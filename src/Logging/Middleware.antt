-- ===== src/Logging/Middleware.antt =====
-- internal/logging/middleware.go: the access log. A handler is given by the calls that it makes of
-- its `http.ResponseWriter`, and by the state that it leaves.
use photon_container.Base.{
  ℕ, ◌≡◌, refl, ap, Bool, true, false, not, String, Option, none, some, List, [], ◌∷◌, ◌++◌, ◌==◌,
  ◌&&◌, inl, inr, Bool-cases, leb, if◌then◌else◌,
}
use photon_container.Logging.Setup.{Logger}
use photon_container.Server.Handlers.{Body}
use text.Mathlib.Text.{starts_with}

-- A call of `WriteHeader`, or of `Write`.
pub data Call : Type 0 where
  write_header : ℕ → Call
  write : Body → Call

-- The response that net/http makes: the first final status that it is given, or 200 at the first
-- `Write`.
pub record Written : Type 0 where
  pub status : Option ℕ
  pub bodies : List Body

abbrev pub is_final : ℕ → Bool
is_final code = if code == 101 then true else not (leb 100 code && leb code 199)

abbrev pub set_status : ℕ → Option ℕ → ℕ
set_status code none = code
set_status code (some first) = first

abbrev header_of : Bool → ℕ → Written → Written
header_of true code r = record r { status = some (set_status code r.status) }
header_of false code r = r

-- The response before anything is written.
abbrev pub nothing : Written
nothing = record { status = none; bodies = [] }

unfoldable pub apply : Call → Written → Written
apply (write_header code) r = header_of (is_final code) code r
apply (write b) r = record { status = some (set_status 200 r.status); bodies = r.bodies ++ b ∷ [] }

-- What is sent, once the handler has returned.
pub record Sent : Type 0 where
  pub status : ℕ
  pub bodies : List Body

unfoldable pub finished : Written → Sent
finished r = record { status = set_status 200 r.status; bodies = r.bodies }

unfoldable pub write_all : List Call → Written → Written
write_all [] r = r
write_all (c ∷ rest) r = write_all rest (apply c r)

-- `responseWriteInterceptor`, around the writer of net/http.
pub record ResponseWriteInterceptor : Type 0 where
  pub response_writer : Written
  pub status_code : ℕ

-- `WriteHeader` of the interceptor, and the `Write` of the writer inside.
unfoldable pub intercept : Call → ResponseWriteInterceptor → ResponseWriteInterceptor
intercept (write_header code) i = record {
  response_writer = apply (write_header code) i.response_writer;
  status_code = code;
}
intercept (write b) i = record i { response_writer = apply (write b) i.response_writer }

unfoldable pub intercept_all : List Call → ResponseWriteInterceptor → ResponseWriteInterceptor
intercept_all [] i = i
intercept_all (c ∷ rest) i = intercept_all rest (intercept c i)

pub record AccessLogMiddleware : Type 0 where
  pub logger : Logger
  pub ignore_path_prefixes : List String

-- `NewAccessLogMiddleware`
unfoldable pub new_access_log_middleware : Logger → AccessLogMiddleware
new_access_log_middleware logger = record { logger = logger; ignore_path_prefixes = [] }

abbrev any_prefix : List String → String → Bool
any_prefix [] path = false
any_prefix (p ∷ rest) path =
    let more = any_prefix rest path in if starts_with path p then true else more

-- `isIgnorePath`
unfoldable pub is_ignore_path : AccessLogMiddleware → String → Bool
is_ignore_path mw path = any_prefix mw.ignore_path_prefixes path

-- A line of the access log, as far as it tells of the response.
pub record Entry : Type 0 where
  pub to : Logger
  pub url_path : String
  pub logged_status : ℕ

module _ {S T : Type 0} (mw : AccessLogMiddleware) (next : S → List Call × T) (path : String) where
  abbrev use_intercepted : List Call × T → (Sent × Option Entry) × T
  use_intercepted (calls, t) =
      let i = intercept_all calls (record { response_writer = nothing; status_code = 0 }) in
      (
        (
          finished i.response_writer,
          some (record { to = mw.logger; url_path = path; logged_status = i.status_code }),
        ),
        t,
      )

  abbrev use_ignored : List Call × T → (Sent × Option Entry) × T
  use_ignored (calls, t) = ((finished (write_all calls nothing), none), t)

  -- `Use`: what is sent, what is logged, and what the handler leaves.
  unfoldable pub use_next : S → (Sent × Option Entry) × T
  use_next s = if is_ignore_path mw path then use_ignored (next s) else use_intercepted (next s)

pub inside :
    (calls : List Call) (i : ResponseWriteInterceptor)
    → (intercept_all calls i).response_writer ≡ write_all calls i.response_writer
unfolding intercept_all intercept write_all
inside [] i = refl
inside (write_header code ∷ rest) i = inside rest (intercept (write_header code) i)
inside (write b ∷ rest) i = inside rest (intercept (write b) i)

module _ {S T : Type 0} (mw : AccessLogMiddleware) (next : S → List Call × T) (path : String) where
  -- The access log changes nothing of a response: what is sent, and what the handler leaves, is
  -- what it is without the log, whatever the handler calls.
  pub use_next-transparent :
      (s : S)
      → ((use_next mw next path s).0.0 ≡ finished (write_all (next s).0 nothing))
        × ((use_next mw next path s).1 ≡ (next s).1)
  unfolding use_next
  use_next-transparent s = elim (Bool-cases (is_ignore_path mw path)) [
    | inl e ↦ rw e (refl, refl)
    | inr e ↦ rw e (ap finished (inside (next s).0 _), refl)
  ]
