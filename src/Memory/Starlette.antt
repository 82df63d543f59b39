-- ===== src/Memory/Starlette.antt =====
-- A concrete Starlette around the layers.
use fastapi_auth_api.Base.{
  arith, ◌≡◌, refl, true, false, not, ◌&&◌, List, [], ◌∷◌, ◌++◌, if◌then◌else◌, str_eq,
}
use fastapi_auth_api.Middleware.{Message, response_start, other, Scope, Exchange, starts, Starlette}

abbrev server_errors : List Message → Scope → Exchange → Exchange
server_errors handled scope x =
    if str_eq scope.type "http" && (x.raised && not (starts x.sent))
    then record x { sent = x.sent ++ handled }
    else x

pub other_scope :
    (handled : List Message) (scope : Scope) (x : Exchange)
    → str_eq scope.type "http" ≡ false
    → server_errors handled scope x ≡ x
other_scope handled scope x h = rw (h) refl

pub returned :
    (handled : List Message) (scope : Scope) (x : Exchange)
    → x.raised ≡ false
    → server_errors handled scope x ≡ x
returned handled scope x h = ground (arith, h)

pub raised :
    (handled : List Message) (scope : Scope) (x : Exchange)
    → str_eq scope.type "http" ≡ true
    → x.raised ≡ true
    → starts x.sent ≡ false
    → server_errors handled scope x ≡ record { sent = x.sent ++ handled; raised = true }
raised handled scope x http h unstarted = ground (arith, http, h, unstarted)

abbrev pub memory_starlette : Starlette
memory_starlette = record {
  json_response = λ status content. response_start status content ∷ other "{}" ∷ [];
  server_errors = server_errors;
  server_errors_other = other_scope;
  server_errors_returned = returned;
  server_errors_raised = raised;
}
