-- ===== src/Middleware.antt =====
-- app/middleware/: what the three layers around the application add to its responses, in the order
-- in which app/main.py puts them; of app/core/exceptions.py the answer to an unhandled exception.
pub mod Legacy
pub mod Stack
use Prim.Native.String.{◌++◌ as ◌&◌}
use fastapi_auth_api.Base.{
  ℕ, ◌≡◌, suc, String, Bool, true, false, ◌||◌, Option, none, some, List, [], ◌∷◌, ◌++◌, map, any,
  if◌then◌else◌, str_eq, starts_with,
}
use fastapi_auth_api.Codec.Utf8.{decode}
use fastapi_auth_api.Services.Runtime.{Runtime}

-- Headers of a response with their values, as the texts whose UTF-8 they are.
abbrev pub Headers : Type 0
Headers = List (String × String)

-- A call of `send`: the start of a response, or anything else that is sent.
pub data Message : Type 0 where
  response_start : ℕ → Headers → Message
  other : String → Message

abbrev pub Bytes : Type 0
Bytes = List ℕ

-- What a middleware reads of an ASGI scope.
pub record Scope : Type 0 where
  pub type : String
  pub path : String
  pub headers : List (String × Bytes)

-- What a call of an application sends, and whether it ends in an exception.
pub record Exchange : Type 0 where
  pub sent : List Message
  pub raised : Bool

-- An application behind the layers; `RequestContextMiddleware` sets the id of the request while it
-- runs, which the log reads.
abbrev pub App : Type 0
App = Option String → Scope → Exchange

-- `send_wrapper`: a change of the headers of the start of the response.
abbrev pub rewrite : (Headers → Headers) → Message → Message
rewrite change (response_start status headers) = response_start status (change headers)
rewrite change (other body) = other body

abbrev pub wrap : (Headers → Headers) → Exchange → Exchange
wrap change exchange = record exchange { sent = map (rewrite change) exchange.sent }

abbrev pub legacy_prefixes : List String
legacy_prefixes = "/auth" ∷ "/users" ∷ "/admin" ∷ "/files" ∷ "/ws" ∷ []

unfoldable pub is_legacy_path : String → Bool
is_legacy_path path =
    any (λ prefix. str_eq path prefix || starts_with (prefix & "/") path) legacy_prefixes

abbrev pub deprecation_headers : String → Headers
deprecation_headers path =
    ("deprecation", "true")
    ∷ ("sunset", "Wed, 31 Dec 2026 23:59:59 GMT")
    ∷ ("link", "<" & ("/api/v1" & (path & ">; rel=\"successor-version\"")))
    ∷ []

unfoldable pub deprecation_middleware : App → App
deprecation_middleware app request_id scope =
    let answered = app request_id scope in
    if str_eq scope.type "http"
    then (if is_legacy_path scope.path
        then wrap (λ headers. headers ++ deprecation_headers scope.path) answered
        else answered)
    else answered

abbrev pub hsts_header : Bool → Headers
hsts_header true =
    ("strict-transport-security", "max-age=63072000; includeSubDomains; preload") ∷ []
hsts_header false = []

unfoldable pub security_headers : Bool → Headers
security_headers hsts =
    (("x-content-type-options", "nosniff")
      ∷ ("x-frame-options", "DENY")
      ∷ ("referrer-policy", "strict-origin-when-cross-origin")
      ∷ ("permissions-policy", "geolocation=(), microphone=(), camera=()")
      ∷ [])
    ++ hsts_header hsts

unfoldable pub security_headers_middleware : Bool → App → App
security_headers_middleware hsts app request_id scope =
    let answered = app request_id scope in
    if str_eq scope.type "http"
    then wrap (λ headers. headers ++ security_headers hsts) answered
    else answered

-- `dict(headers).get(name)`: the last value wins.
abbrev pub header : String → List (String × Bytes) → Option Bytes
header name [] = none
header name ((key, value) ∷ rest) = elim (header name rest) [
  | some later ↦ some later
  | none ↦ if str_eq name key then some value else none
]

-- `incoming_id.decode() if incoming_id else str(uuid.uuid4())`; `none` is a UnicodeDecodeError.
unfoldable pub id_or_new : Option Bytes → String → Option String
unfolding decode
id_or_new none new = some new
id_or_new (some []) new = some new
id_or_new (some (b ∷ bs)) new = decode (b ∷ bs)

-- What the log says of a request: its path and the status.
pub record LogEntry : Type 0 where
  pub http_path : String
  pub http_status : ℕ

-- The status of the last start of a response; 500 if there was none.
abbrev pub status_of : ℕ → List Message → ℕ
status_of status [] = status
status_of status (response_start code headers ∷ later) = status_of code later
status_of status (other body ∷ later) = status_of status later

-- The call under the id of its request, and what is logged of it, also where it raises; without an
-- id the decoding has raised before.
abbrev pub under_id : App → Scope → Option String → Exchange × List LogEntry
under_id app scope none = (record { sent = []; raised = true }, [])
under_id app scope (some request_id) =
    let answered = app (some request_id) scope in
    (
      wrap (λ headers. headers ++ ("x-request-id", request_id) ∷ []) answered,
      record { http_path = scope.path; http_status = status_of 500 answered.sent } ∷ [],
    )

-- `draw` is the number of the random draw.
unfoldable pub request_context_middleware : Runtime → ℕ → App → Scope → Exchange × List LogEntry
unfolding id_or_new
request_context_middleware runtime draw app scope =
    if str_eq scope.type "http"
    then under_id app scope (id_or_new (header "x-request-id" scope.headers) (runtime.uuid4 draw))
    else (app none scope, [])

-- Is one of the messages the start of a response?
abbrev pub starts : List Message → Bool
starts [] = false
starts (response_start status headers ∷ later) = true
starts (other body ∷ later) = starts later

-- What Starlette does around all middleware: its ServerErrorMiddleware has an exception that comes
-- out of a call answered by the messages of the registered handler, where no response was started,
-- and raises it again. `json_response` is what a JSONResponse of a status and a dict sends.
pub record Starlette : Type 0 where
  pub json_response : ℕ → List (String × String) → List Message
  pub server_errors : List Message → Scope → Exchange → Exchange
  pub server_errors_other :
      (handled : List Message) (scope : Scope) (x : Exchange)
      → str_eq scope.type "http" ≡ false
      → server_errors handled scope x ≡ x
  pub server_errors_returned :
      (handled : List Message) (scope : Scope) (x : Exchange)
      → x.raised ≡ false
      → server_errors handled scope x ≡ x
  pub server_errors_raised :
      (handled : List Message) (scope : Scope) (x : Exchange)
      → str_eq scope.type "http" ≡ true
      → x.raised ≡ true
      → starts x.sent ≡ false
      → server_errors handled scope x ≡ record { sent = x.sent ++ handled; raised = true }

-- The response of `handle_unhandled_exception`.
abbrev pub handle_unhandled_exception : Starlette → List Message
handle_unhandled_exception starlette =
    starlette.json_response 500 (("detail", "Internal Server Error") ∷ [])

-- The layers of app/main.py around the rest of the application, which has Starlette's own layers
-- (CORS, trusted hosts, compression) and the answers to HTTP exceptions; the answer to any other
-- exception stands around them.
unfoldable pub application : Runtime → ℕ → Bool → Starlette → App → Scope → Exchange × List LogEntry
application runtime draw is_production starlette app scope =
    let (x, log) =
      request_context_middleware runtime draw
        (deprecation_middleware (security_headers_middleware is_production app)) scope in
    (starlette.server_errors (handle_unhandled_exception starlette) scope x, log)
