-- ===== src/Middleware/Stack.antt =====
-- The layers together.
use fastapi_auth_api.Base.{
  ℕ, ◌≡◌, refl, ap, ◌∙◌, String, Bool, true, false, some, none, List, [], ◌∷◌, ◌++◌, str_eq,
  if◌then◌else◌,
}
use Prim.Native.String.{◌++◌ as ◌&◌}
use fastapi_auth_api.Services.Runtime.{Runtime}
use fastapi_auth_api.Middleware.{
  Headers, Scope, Exchange, App, LogEntry, Starlette, handle_unhandled_exception, header, id_or_new,
  status_of, is_legacy_path, application, deprecation_middleware, security_headers_middleware,
  request_context_middleware,
}

-- The headers of a response with the security headers behind them.
abbrev pub secured : Bool → Headers → Headers
secured is_production headers =
    headers
    ++ (("x-content-type-options", "nosniff")
        ∷ ("x-frame-options", "DENY")
        ∷ ("referrer-policy", "strict-origin-when-cross-origin")
        ∷ ("permissions-policy", "geolocation=(), microphone=(), camera=()")
        ∷ (if is_production
            then ("strict-transport-security", "max-age=63072000; includeSubDomains; preload") ∷ []
            else []))

-- The headers of a response with those of a deprecated path behind them.
abbrev pub deprecated : String → Headers → Headers
deprecated path headers =
    headers
    ++ (("deprecation", "true")
        ∷ ("sunset", "Wed, 31 Dec 2026 23:59:59 GMT")
        ∷ ("link", "<" & ("/api/v1" & (path & ">; rel=\"successor-version\"")))
        ∷ [])

-- The headers of a response with the id of its request behind them.
abbrev pub identified : String → Headers → Headers
identified request_id headers = headers ++ ("x-request-id", request_id) ∷ []

-- The headers of the layers but for the id.
abbrev layers : Bool → String → Headers → Headers
layers is_production path =
    if is_legacy_path path
    then (λ headers. deprecated path (secured is_production headers))
    else secured is_production

module _ (runtime : Runtime) (draw : ℕ) (is_production : Bool) (starlette : Starlette) (app : App)
    (scope : Scope) where
  -- The log of a call under an id: one line with the path and the status.
  abbrev pub logged : String → List LogEntry
  logged id =
      record { http_path = scope.path; http_status = status_of 500 (app (some id) scope).sent } ∷ []

  -- An id that is not UTF-8 is answered by the messages of the handler, and nothing is logged.
  pub application_undecodable :
      str_eq scope.type "http" ≡ true
      → id_or_new (header "x-request-id" scope.headers) (runtime.uuid4 draw) ≡ none
      → application runtime draw is_production starlette app scope
        ≡ (record { sent = handle_unhandled_exception starlette; raised = true }, [])
  unfolding application request_context_middleware
  application_undecodable http undecodable =
      let handled = handle_unhandled_exception starlette in
      ap (λ (x : Exchange × List LogEntry). (starlette.server_errors handled scope x.0, x.1))
        (rw (http, undecodable) refl)
      ∙ ap (λ (x : Exchange). (x, []))
          (starlette.server_errors_raised handled scope (record { sent = []; raised = true }) http
            refl refl)

  -- Anything else passes the layers as it is, and is not logged.
  pub application_other :
      str_eq scope.type "http" ≡ false
      → application runtime draw is_production starlette app scope ≡ (app none scope, [])
  unfolding application request_context_middleware deprecation_middleware
      security_headers_middleware
  application_other other_type =
      let handled = handle_unhandled_exception starlette in
      ap (λ (x : Exchange × List LogEntry). (starlette.server_errors handled scope x.0, x.1))
        (rw (other_type) refl)
      ∙ ap (λ (x : Exchange). (x, []))
          (starlette.server_errors_other handled scope (app none scope) other_type)
