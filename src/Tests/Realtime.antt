-- ===== src/Tests/Realtime.antt =====
-- A session on a WebSocket.
use fastapi_auth_api.Base.{ℕ, pos, Bool, ◌≡◌, refl, true, [], ◌∷◌}
use fastapi_auth_api.Http.{ok}
use fastapi_auth_api.Services.{World}
use fastapi_auth_api.Connections.{Frame, notification, connect, disconnect}
use fastapi_auth_api.Connections.Sets.{open_sockets}
use fastapi_auth_api.Realtime.{
  publish_to_user, websocket_endpoint, text, integer, dict, not_a_dict, not_json,
}
use fastapi_auth_api.Realtime.Delivery.{websocket_endpoint_leaves_no_socket}
use fastapi_auth_api.Realtime.Listener.{listen, pmessage}
use fastapi_auth_api.Realtime.Listener.Workers.{message_crosses_workers}
use fastapi_auth_api.Memory.Json.{memory_json}
use fastapi_auth_api.Memory.{memory}
use fastapi_auth_api.Tests.Fixtures.{jane, empty}

abbrev working : ℕ → Bool
working _ = true

abbrev online : World memory
online = record empty { connections = (1, 9 ∷ []) ∷ [] }

abbrev offline : World memory
offline = record empty { connections = [] }

message_crosses_workers_example :
    (publish_to_user memory working true 1 (notification "hello") offline
      ≡ (ok tt, record offline { published = ("1", notification "hello") ∷ [] }))
    × (listen memory memory_json working (pmessage "ws:user:1" "nhello" ∷ []) online
        ≡ (ok tt, record online { sent = (9, notification "hello") ∷ [] }))
unfolding fastapi_auth_api.Connections.is_connected_locally
message_crosses_workers_example =
    message_crosses_workers memory memory_json working true 1 (notification "hello") offline online
      tt (refl, tt)

websocket_endpoint_leaves_no_socket_example :
    open_sockets 1
      (websocket_endpoint memory working true jane 8
        (not_a_dict
          ∷ dict (("type", text "message") ∷ ("to", integer (pos 1)) ∷ ("body", text "hi") ∷ [])
          ∷ not_json
          ∷ [])
        online).1.connections
    ≡ 9 ∷ []
websocket_endpoint_leaves_no_socket_example =
    websocket_endpoint_leaves_no_socket memory working true jane 8 1
      (not_a_dict
        ∷ dict (("type", text "message") ∷ ("to", integer (pos 1)) ∷ ("body", text "hi") ∷ [])
        ∷ not_json
        ∷ [])
      online (tt, refl, tt) (refl, tt)
