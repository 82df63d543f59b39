-- ===== src/Realtime/Listener.antt =====
-- app/services/ws_pubsub.py: the task that hands messages of other workers to the sockets of this one.
pub mod Workers
use Prim.Native.String.{◌++◌ as ◌&◌}
use fastapi_auth_api.Base.{
  ℕ, ◌≡◌, String, Bool, true, false, Option, none, some, List, [], ◌∷◌, ◌++◌, map, ℤ, pos, negsuc,
  after_prefix,
}
use fastapi_auth_api.Http.{Result, server_error, Action, pure, ok, err, ◌>>=◌, ◌>>◌}
use fastapi_auth_api.Services.{Services, World}
use fastapi_auth_api.Connections.{Frame, Delivery, send_local}

-- What the listener uses of the module json: `loads` is `none` where Python raises. A text that is the JSON of
-- something that this program never publishes is left out.
pub record JsonTexts : Type 0 where
  pub dumps : Frame → String
  pub loads : String → Option Frame
  pub loads-dumps : (frame : Frame) → loads (dumps frame) ≡ some frame

-- What `pubsub.listen()` yields: a message with its channel and data, or an item of another type.
pub data Item : Type 0 where
  pmessage : String → String → Item
  other : String → Item

abbrev pub user_channel_prefix : String
user_channel_prefix = "ws:user:"

-- `text.removeprefix(prefix)`, from what follows the prefix where the text starts with it.
abbrev pub rest_or : String → Option String → String
rest_or text none = text
rest_or text (some rest) = rest

abbrev pub parsed : Option ℤ → Option Frame → Option (ℤ × Frame)
parsed none frame = none
parsed (some user_id) none = none
parsed (some user_id) (some frame) = some (user_id, frame)

module _ (sv : Services) (json : JsonTexts) where
  -- The user and the message of an item; `none` for a malformed one.
  abbrev pub parse : String → String → Option (ℤ × Frame)
  parse channel content =
      parsed (sv.runtime.int (rest_or channel (after_prefix user_channel_prefix channel)))
        (json.loads content)

  module _ (works : ℕ → Bool) where
    -- No user has a negative id.
    abbrev pub relay : Option (ℤ × Frame) → World sv → Delivery
    unfolding send_local
    relay none w = record { frames = []; result = some false }
    relay (some (pos user, frame)) w = send_local works user frame w.connections
    relay (some (negsuc user, frame)) w = record { frames = []; result = some false }

    abbrev pub outcome : Option Bool → Result (Unit {0})
    outcome none = err server_error
    outcome (some delivered) = ok tt

    -- One turn of the inner loop; an exception of a send ends the loop.
    unfoldable pub receive_item : Item → Action (World sv) (Unit {0})
    receive_item (other type) w = (ok tt, w)
    receive_item (pmessage channel content) w =
        let delivery = relay (parse channel content) w in
        (outcome delivery.result, record w { sent = w.sent ++ delivery.frames })

    -- The items of one connection to Redis.
    unfoldable pub listen : List Item → Action (World sv) (Unit {0})
    unfolding receive_item
    listen [] = pure tt
    listen (item ∷ later) = receive_item item >> listen later

    -- The connections, one after the other, each until it breaks down or a send raises; what is
    -- left of the items of a connection is lost then.
    unfoldable pub run_pubsub_listener : List (List Item) → World sv → World sv
    unfolding listen
    run_pubsub_listener [] w = w
    run_pubsub_listener (items ∷ later) w = run_pubsub_listener later (listen items w).1

  -- What other workers see of a message that was published.
  abbrev pub published_item : String × Frame → Item
  published_item (name, frame) = pmessage (user_channel_prefix & name) (json.dumps frame)
