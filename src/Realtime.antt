-- ===== src/Realtime.antt =====
-- app/services/ws_pubsub.py and app/api/websocket.py: messages to the sockets of a user.
pub mod Delivery
pub mod Stores
pub mod Listener
use Prim.Native.String.{◌++◌ as ◌&◌}
use fastapi_auth_api.Base.{
  suc, ℕ, ℤ, pos, negsuc, String, Bool, true, false, Option, none, some, List, [], ◌∷◌, ◌++◌,
  if◌then◌else◌, str_eq,
}
use fastapi_auth_api.Http.{
  server_error, Action, HttpException, http, pure, raise, modify, ok, err, ◌>>=◌, ◌>>◌,
}
use fastapi_auth_api.Models.{User}
use fastapi_auth_api.Services.{Services, World}
use fastapi_auth_api.Connections.{
  Frame, message, notification, error, Connections, connect, disconnect, send_local,
}

-- `works` says whether a send to a socket goes through, `reachable` whether a publish to Redis
-- does; one that does not is logged and dropped.
module _ (sv : Services) (works : ℕ → Bool) (reachable : Bool) where
  abbrev pub publish : String → Frame → World sv → World sv
  publish name frame w =
      if reachable then record w { published = w.published ++ (name, frame) ∷ [] } else w

  abbrev pub after_send : String → Frame → Option Bool → Action (World sv) (Unit {0})
  after_send name frame none w = (err server_error, w)
  after_send name frame (some delivered_locally) w =
      (ok tt, if delivered_locally then w else publish name frame w)

  -- To the user of an id, which is written in this way in the name of the channel.
  abbrev pub send_or_publish : String → ℕ → Frame → Action (World sv) (Unit {0})
  send_or_publish name user frame w =
      let delivery = send_local works user frame w.connections in
      after_send name frame delivery.result (record w { sent = w.sent ++ delivery.frames })

  unfoldable pub publish_to_user : ℕ → Frame → Action (World sv) (Unit {0})
  unfolding send_local
  publish_to_user user = send_or_publish (sv.runtime.str user) user

-- A value of a dict that `receive_json` returns, as far as the code looks at it: an integer is an
-- `int`, and `composite` is a float, a list or a dict.
pub data Json : Type 0 where
  null : Json
  boolean : Bool → Json
  integer : ℤ → Json
  text : String → Json
  composite : Json

-- What comes of a message of the client: `receive_json` returns a dict, or a value that is not one,
-- or it raises, where the message is not the text of a JSON value.
pub data Received : Type 0 where
  dict : List (String × Json) → Received
  not_a_dict : Received
  not_json : Received

-- `item.get(key)`
abbrev pub field : String → List (String × Json) → Json
field key [] = null
field key ((k, v) ∷ rest) = if str_eq key k then v else field key rest

-- An `int` of Python: True and False are the ids 1 and 0 in a dict, but not in an f-string.
pub data Recipient : Type 0 where
  id : ℤ → Recipient
  truth : Bool → Recipient

-- `isinstance(value, int)`, which holds of True and False as well.
abbrev pub as_int : Json → Option Recipient
as_int (integer i) = some (id i)
as_int (boolean b) = some (truth b)
as_int null = none
as_int (text _) = none
as_int composite = none

abbrev pub as_text : Json → Option String
as_text (text s) = some s
as_text null = none
as_text (boolean _) = none
as_text (integer _) = none
as_text composite = none

abbrev pub is_message : Option String → Bool
is_message none = false
is_message (some type) = str_eq type "message"

abbrev pub unsupported : Frame
unsupported = error "Unsupported message type"

abbrev pub malformed : Frame
malformed = error "'to' must be an integer user id and 'body' a string"

module _ (sv : Services) (works : ℕ → Bool) (reachable : Bool) (user : User) (socket : ℕ) where
  -- `websocket.send_json` to the client's own socket.
  abbrev pub answer : Frame → Action (World sv) (Unit {0})
  answer frame w =
      if works socket
      then (ok tt, record w { sent = w.sent ++ (socket, frame) ∷ [] })
      else (err server_error, w)

  -- No user has a negative id: `send_local` finds no socket then, and the message is published.
  abbrev pub forward : Option Recipient → Option String → Action (World sv) (Unit {0})
  forward none body = answer malformed
  forward (some to) none = answer malformed
  forward (some (id (pos to))) (some body) =
      publish_to_user sv works reachable to (message user.id body)
  forward (some (id (negsuc to))) (some body) =
      modify (publish sv works reachable ("-" & sv.runtime.str (suc to)) (message user.id body))
  forward (some (truth true)) (some body) =
      send_or_publish sv works reachable "True" 1 (message user.id body)
  forward (some (truth false)) (some body) =
      send_or_publish sv works reachable "False" 0 (message user.id body)

  abbrev pub receive_dict : List (String × Json) → Action (World sv) (Unit {0})
  receive_dict item w =
      if is_message (as_text (field "type" item))
      then forward (as_int (field "to" item)) (as_text (field "body" item)) w
      else answer unsupported w

  -- One turn of the loop. Only a `WebSocketDisconnect` is caught, so the JSONDecodeError of a
  -- message that is not JSON ends the session.
  unfoldable pub receive : Received → Action (World sv) (Unit {0})
  receive not_json = raise server_error
  receive not_a_dict = answer unsupported
  receive (dict item) = receive_dict item

  -- The loop, until the client disconnects after these messages, or a message or a send raises.
  unfoldable pub receive_all : List Received → Action (World sv) (Unit {0})
  unfolding receive
  receive_all [] = pure tt
  receive_all (item ∷ later) = receive item >> receive_all later

  -- `finally`: however the loop ended, the socket is forgotten.
  unfoldable pub websocket_endpoint : List Received → Action (World sv) (Unit {0})
  unfolding connect disconnect receive_all
  websocket_endpoint messages w =
      let (r, w') =
        receive_all messages (record w { connections = connect user.id socket w.connections }) in
      (r, record w' { connections = disconnect user.id socket w'.connections })
