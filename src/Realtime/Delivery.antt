-- ===== src/Realtime/Delivery.antt =====
-- Who gets a message, and what a WebSocket session leaves behind.
use fastapi_auth_api.Base.{
  true, false, ℕ, pos, negsuc, ◌≡◌, refl, ap, ◌∙◌, String, Bool, true, Option, none, some, List, [],
  ◌∷◌, ◌++◌, arith, All, if◌then◌else◌,
}
use fastapi_auth_api.Http.{ok}
use fastapi_auth_api.Models.{User}
use fastapi_auth_api.Services.{Services, World}
use fastapi_auth_api.Connections.{
  Frame, connect, disconnect, lookup, sockets_of, is_connected_locally, send_all, send_sockets,
  send_local,
}
use fastapi_auth_api.Connections.Sets.{IsTidy, Misses, open_sockets, disconnect-connect}
use fastapi_auth_api.Realtime.{
  Recipient, id, truth, as_int, as_text, field, publish, publish_to_user, Received, dict,
  not_a_dict, not_json, receive, receive_all, websocket_endpoint, forward,
}

abbrev pub to_each : Frame → List ℕ → List (ℕ × Frame)
to_each frame [] = []
to_each frame (s ∷ ss) = (s, frame) ∷ to_each frame ss

pub send_all-to_each :
    (works : ℕ → Bool) (frame : Frame) (ss : List ℕ)
    → All (λ s. works s ≡ true) ss
    → send_all works frame ss ≡ (to_each frame ss, true)
unfolding send_all
send_all-to_each works frame [] h = refl
send_all-to_each works frame (s ∷ ss) h = ground (arith, h.0, send_all-to_each works frame ss h.1)

module _ (sv : Services) (works : ℕ → Bool) (reachable : Bool) where
  -- While every open socket of the user works, a message goes to each of them once and is not
  -- published; it is published, if Redis can be reached, exactly when the user has no socket here.
  -- It raises nothing, and no connection changes.
  pub publish_to_user_delivers :
      (user : ℕ) (frame : Frame) (w : World sv)
      → All (λ s. works s ≡ true) (sockets_of (lookup user w.connections))
      → publish_to_user sv works reachable user frame w ≡ (
        ok tt,
        if is_connected_locally user w.connections
            then record w {
              sent = w.sent ++ to_each frame (sockets_of (lookup user w.connections));
            }
            else publish sv works reachable
                (sv.runtime.str user)
                frame
                (record w { sent = w.sent ++ [] }),
      )
  unfolding publish_to_user send_local send_sockets is_connected_locally
  publish_to_user_delivers user frame w h =
      ground (arith, send_all-to_each works frame (sockets_of (lookup user w.connections)) h)

  -- Sending changes no connection.
  pub connections-publish_to_user :
      (user : ℕ) (frame : Frame) (w : World sv)
      → (publish_to_user sv works reachable user frame w).1.connections ≡ w.connections
  unfolding publish_to_user
  connections-publish_to_user user frame w = ground arith

  module _ (user : User) (socket : ℕ) where
    connections-forward :
        (to : Option Recipient) (body : Option String) (w : World sv)
        → (forward sv works reachable user socket to body w).1.connections ≡ w.connections
    unfolding publish_to_user
    connections-forward none body w = ground arith
    connections-forward (some to) none w = ground arith
    connections-forward (some (id (pos to))) (some body) w = ground arith
    connections-forward (some (id (negsuc to))) (some body) w = ground arith
    connections-forward (some (truth true)) (some body) w = ground arith
    connections-forward (some (truth false)) (some body) w = ground arith

    connections-receive :
        (item : Received) (w : World sv)
        → (receive sv works reachable user socket item w).1.connections ≡ w.connections
    unfolding receive publish_to_user
    connections-receive not_json w = refl
    connections-receive not_a_dict w = ground arith
    connections-receive (dict fields) w =
        ground (
          arith,
          connections-forward (as_int (field "to" fields)) (as_text (field "body" fields)) w,
        )

    connections-receive_all :
        (messages : List Received) (w : World sv)
        → (receive_all sv works reachable user socket messages w).1.connections ≡ w.connections
    unfolding receive_all
    connections-receive_all [] w = refl
    connections-receive_all (item ∷ later) w =
        let now = connections-receive item w in
        let rest =
          connections-receive_all later (receive sv works reachable user socket item w).1 in
        ground (arith, now, rest)

    -- Whatever messages the client sent, JSON or not, and however the session ended, on a new socket of a tidy dict it
    -- leaves every user with the open sockets there were before.
    pub websocket_endpoint_leaves_no_socket :
        (v : ℕ) (messages : List Received) (w : World sv)
        → IsTidy w.connections
        → Misses socket (open_sockets user.id w.connections)
        → open_sockets v
            (websocket_endpoint sv works reachable user socket messages w).1.connections
          ≡ open_sockets v w.connections
    unfolding websocket_endpoint
    websocket_endpoint_leaves_no_socket v messages w tidy fresh =
        let opened : World sv = record w { connections = connect user.id socket w.connections } in
        let kept = connections-receive_all messages opened in
        ap (λ cs. open_sockets v (disconnect user.id socket cs)) kept
        ∙ disconnect-connect v user.id socket w.connections tidy fresh
