-- ===== src/Realtime/Stores.antt =====
-- A session on a WebSocket touches neither the tables nor Redis.
use fastapi_auth_api.Base.{
  true, false, ℕ, pos, negsuc, ◌≡◌, refl, String, Bool, Option, none, some, List, [], ◌∷◌, arith,
}
use fastapi_auth_api.Models.{User}
use fastapi_auth_api.Services.{Services, World}
use fastapi_auth_api.Connections.{Frame, connect}
use fastapi_auth_api.Realtime.{
  Recipient, id, truth, as_int, as_text, field, publish_to_user, Received, dict, not_a_dict,
  not_json, receive, receive_all, websocket_endpoint, forward,
}

-- The stores that outlive the process.
abbrev pub stores : {sv : Services} → World sv → sv.users.State × sv.redis.State
stores w = (w.users, w.redis)

module _ (sv : Services) (works : ℕ → Bool) (reachable : Bool) where
  pub stores-publish_to_user :
      (user : ℕ) (frame : Frame) (w : World sv)
      → stores (publish_to_user sv works reachable user frame w).1 ≡ stores w
  unfolding publish_to_user
  stores-publish_to_user user frame w = ground arith

  module _ (user : User) (socket : ℕ) where
    stores-forward :
        (to : Option Recipient) (body : Option String) (w : World sv)
        → stores (forward sv works reachable user socket to body w).1 ≡ stores w
    unfolding publish_to_user
    stores-forward none body w = ground arith
    stores-forward (some to) none w = ground arith
    stores-forward (some (id (pos to))) (some body) w = ground arith
    stores-forward (some (id (negsuc to))) (some body) w = ground arith
    stores-forward (some (truth true)) (some body) w = ground arith
    stores-forward (some (truth false)) (some body) w = ground arith

    stores-receive :
        (item : Received) (w : World sv)
        → stores (receive sv works reachable user socket item w).1 ≡ stores w
    unfolding receive publish_to_user
    stores-receive not_json w = refl
    stores-receive not_a_dict w = ground arith
    stores-receive (dict fields) w =
        ground
          (arith, stores-forward (as_int (field "to" fields)) (as_text (field "body" fields)) w)

    stores-receive_all :
        (messages : List Received) (w : World sv)
        → stores (receive_all sv works reachable user socket messages w).1 ≡ stores w
    unfolding receive_all
    stores-receive_all [] w = refl
    stores-receive_all (item ∷ later) w =
        let now = stores-receive item w in
        let rest = stores-receive_all later (receive sv works reachable user socket item w).1 in
        ground (arith, now, rest)

    pub stores-websocket_endpoint :
        (messages : List Received) (w : World sv)
        → stores (websocket_endpoint sv works reachable user socket messages w).1 ≡ stores w
    unfolding websocket_endpoint
    stores-websocket_endpoint messages w =
        let opened : World sv = record w { connections = connect user.id socket w.connections } in
        ground (arith, stores-receive_all messages opened)
