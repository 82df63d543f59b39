-- ===== src/Tests/Middleware.antt =====
-- Requests to paths of before the versions, and one over a WebSocket, through the layers.
use fastapi_auth_api.Base.{◌≡◌, refl, true, false, none, some, [], ◌∷◌}
use fastapi_auth_api.Middleware.{
  App, Scope, response_start, other, application, id_or_new, is_legacy_path,
  request_context_middleware, deprecation_middleware, security_headers_middleware,
}
use fastapi_auth_api.Memory.{memory_runtime}
use fastapi_auth_api.Memory.Starlette.{memory_starlette}

-- An application that names its requests in its answers.
abbrev named : App
named none scope = record { sent = other "no id" ∷ []; raised = false }
named (some id) scope = record {
  sent = response_start 403 (("content-type", id) ∷ []) ∷ other "refused" ∷ [];
  raised = false;
}

-- One that always raises.
abbrev broken : App
broken id scope = record { sent = []; raised = true }

abbrev login_scope : Scope
login_scope = record {
  type = "http";
  path = "/auth/login";
  headers = ("x-request-id", []) ∷ ("x-request-id", 114 ∷ 55 ∷ []) ∷ [];
}

no_headers_on_500 : application memory_runtime 0 true memory_starlette broken login_scope ≡ (
  record {
    sent = response_start 500 (("detail", "Internal Server Error") ∷ []) ∷ other "{}" ∷ [];
    raised = true;
  },
  record { http_path = "/auth/login"; http_status = 500 } ∷ [],
)
unfolding application request_context_middleware deprecation_middleware security_headers_middleware
    id_or_new is_legacy_path
no_headers_on_500 = refl

abbrev undecodable_scope : Scope
undecodable_scope = record login_scope { headers = ("x-request-id", 255 ∷ []) ∷ [] }

undecodable_id : application memory_runtime 0 true memory_starlette named undecodable_scope ≡ (
  record {
    sent = response_start 500 (("detail", "Internal Server Error") ∷ []) ∷ other "{}" ∷ [];
    raised = true;
  },
  [],
)
unfolding application request_context_middleware id_or_new
undecodable_id = refl

abbrev socket_scope : Scope
socket_scope = record { type = "websocket"; path = "/ws"; headers = [] }

socket_passes :
    application memory_runtime 0 true memory_starlette named socket_scope
    ≡ (named none socket_scope, [])
unfolding application request_context_middleware deprecation_middleware security_headers_middleware
socket_passes = refl
