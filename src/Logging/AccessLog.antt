-- ===== src/Logging/AccessLog.antt =====
-- The access log of the agent: internal/logging/middleware.go around the handlers of
-- internal/server, as cmd/photon-agent/main.go puts them together.
use photon_container.Base.{
  ℕ, ◌≡◌, ◌≢◌, refl, ap, ◌∙◌, Bool, true, false, String, Option, some, List, [], ◌∷◌, eq_iff, arith,
}
use photon_container.Logging.Middleware.{
  Call, write_header, write, Written, nothing, apply, finished, write_all, intercept, intercept_all,
  is_final, set_status, inside, AccessLogMiddleware, use_next, is_ignore_path,
  new_access_log_middleware, ResponseWriteInterceptor,
}
use photon_container.Logging.Setup.{Logger}
use photon_container.Os.Files.{Reader}
use photon_container.Photondata.Archive.{Archive}
use photon_container.Photondata.Migrator.{state}
use photon_container.Server.Handlers.{
  Answer, Body, empty, text, status_object, Response, Values, upload_options, uploaded, serve,
}
use photon_container.Updater.Entry.{Updater, update_async}
use photon_container.World.{World, M, Method, Result, ok, err}

-- The calls by which a handler of the server gives its response: `WriteHeader` first, then `Write`
-- for a body.
abbrev body_calls : Body → List Call
body_calls empty = []
body_calls (text s) = write (text s) ∷ []
body_calls (status_object s v) = write (status_object s v) ∷ []

unfoldable pub calls_of : Response → List Call
calls_of r = write_header r.status ∷ body_calls r.body

abbrev pub Left : Type 0
Left = Option (M (Unit {0})) × World

abbrev answer_calls : Answer × World → List Call × Left
answer_calls ((r, go), v) = (calls_of r, (go, v))

one_header :
    (code : ℕ) (b : Body) (final : Bool)
    → is_final code ≡ final
    → final ≡ true
    → ((intercept_all
          (calls_of (record { status = code; body = b }))
          (record { response_writer = nothing; status_code = 0 })).status_code
        ≡ code)
      × ((finished (write_all (calls_of (record { status = code; body = b })) nothing)).status
          ≡ code)
unfolding intercept_all intercept apply finished write_all calls_of
one_header code empty final e h = ground (arith, e, h)
one_header code (text s) final e h = ground (arith, e, h)
one_header code (status_object s v) final e h = ground (arith, e, h)

module _ (u : Updater) (archive : Archive) (metrics : World → Answer × World) where
  unfoldable pub agent_calls : Method → String → Values → Reader → World → List Call × Left
  agent_calls method path query body w =
      answer_calls (serve u archive metrics method path query body w)

  uploaded-final : (r : Result (M (Unit {0}))) → is_final (uploaded u archive r).0.status ≡ true
  uploaded-final (ok go) = refl
  uploaded-final (err e) = refl

  serve-final :
      (method : Method) (path : String) (query : Values) (body : Reader) (w : World)
      → path ≢ "/metrics"
      → is_final (serve u archive metrics method path query body w).0.0.status ≡ true
  unfolding serve state
  serve-final Method.get path query body w h = ground (arith, eq_iff path "/metrics")
  serve-final Method.head path query body w h = ground (arith, eq_iff path "/metrics")
  serve-final Method.post path query body w h = ground (
    arith,
    h,
    eq_iff path "/metrics",
    uploaded-final (update_async u body (upload_options query) w).0,
  )
  serve-final Method.delete path query body w h = ground arith
  serve-final Method.put path query body w h = ground arith
  serve-final Method.other path query body w h = ground arith

  -- The access log of the agent tells the truth: of a request to any path but /metrics, the client
  -- gets the status of the handler's answer, one line is logged with this status and the path, and
  -- the goroutine and the world are those that the handler leaves.
  pub agent_logged :
      (logger : Logger) (method : Method) (path : String) (query : Values) (body : Reader)
      (w : World)
      → path ≢ "/metrics"
      → (let ((sent, line), left) =
            use_next
              (new_access_log_middleware logger)
              (agent_calls method path query body)
              path
              w in
          let ((r, go), v) = serve u archive metrics method path query body w in
          (sent.status ≡ r.status)
          × (line ≡ some (record { to = logger; url_path = path; logged_status = r.status }))
          × (left ≡ (go, v)))
  unfolding use_next new_access_log_middleware is_ignore_path agent_calls
  agent_logged logger method path query body w h =
      let (logged, written) =
        one_header (serve u archive metrics method path query body w).0.0.status
          (serve u archive metrics method path query body w).0.0.body true
          (serve-final method path query body w h) refl in
      (
        ap (λ x. (finished x).status)
              (inside (calls_of (serve u archive metrics method path query body w).0.0)
                (record { response_writer = nothing; status_code = 0 }))
            ∙ written,
        ap (λ k. some (record { to = logger; url_path = path; logged_status = k })) logged,
        refl,
      )

-- The calls of a handler that leaves the status to its first `Write`.
abbrev pub writes_only : List Body → List Call
writes_only [] = []
writes_only (b ∷ rest) = write b ∷ writes_only rest

unlogged :
    (bodies : List Body) (i : ResponseWriteInterceptor)
    → (intercept_all (writes_only bodies) i).status_code ≡ i.status_code
unfolding intercept_all intercept
unlogged [] i = refl
unlogged (b ∷ rest) i = unlogged rest (intercept (write b) i)

sent_anyway :
    (bodies : List Body) (r : Written)
    → set_status 200 r.status ≡ 200
    → (finished (write_all (writes_only bodies) r)).status ≡ 200
unfolding finished write_all apply
sent_anyway [] r h = h
sent_anyway (b ∷ rest) r h = sent_anyway rest (apply (write b) r) h

module _ {S T : Type 0} (mw : AccessLogMiddleware) (next : S → List Call × T) (path : String) where
  -- A handler that writes a body and never calls `WriteHeader`, under a path that is not ignored,
  -- is answered by 200 and logged with the status 0.
  pub use_next-writes_only :
      (s : S) (bodies : List Body)
      → is_ignore_path mw path ≡ false
      → (next s).0 ≡ writes_only bodies
      → ((use_next mw next path s).0.0.status ≡ 200)
        × ((use_next mw next path s).0.1
            ≡ some (record { to = mw.logger; url_path = path; logged_status = 0 }))
  unfolding use_next
  use_next-writes_only s bodies e h = rw e (
      rw h (
        ap (λ x. (finished x).status) (inside (writes_only bodies) _)
            ∙ sent_anyway bodies nothing refl,
        ap (λ k. some (record { to = mw.logger; url_path = path; logged_status = k }))
            (unlogged bodies _),
      ))
