-- ===== src/Connections.antt =====
-- app/services/connection_manager.py: the open WebSockets of this worker process, by user.
pub mod Sets
pub mod Refinement
use fastapi_auth_api.Base.{
  ℕ, String, Bool, true, false, Option, none, some, List, [], ◌∷◌, ◌==◌, if◌then◌else◌,
}

-- The JSON messages that are sent to a socket.
pub data Frame : Type 0 where
  message : ℕ → String → Frame
  notification : String → Frame
  error : String → Frame

-- `dict[int, set[WebSocket]]`; a socket is known by a number.
abbrev pub Connections : Type 0
Connections = List (ℕ × List ℕ)

abbrev pub lookup : ℕ → Connections → Option (List ℕ)
lookup user [] = none
lookup user ((u, sockets) ∷ cs) = if user == u then some sockets else lookup user cs

-- `set.add`
abbrev pub add : ℕ → List ℕ → List ℕ
add socket [] = socket ∷ []
add socket (s ∷ ss) = if socket == s then s ∷ ss else s ∷ add socket ss

-- `set.discard`
abbrev pub discard : ℕ → List ℕ → List ℕ
discard socket [] = []
discard socket (s ∷ ss) = if socket == s then ss else s ∷ discard socket ss

abbrev pub replace : ℕ → List ℕ → Connections → Connections
replace user sockets [] = []
replace user sockets ((u, old) ∷ cs) =
    if user == u then (u, sockets) ∷ cs else (u, old) ∷ replace user sockets cs

-- `dict.pop(user, None)`
abbrev pub pop : ℕ → Connections → Connections
pop user [] = []
pop user ((u, sockets) ∷ cs) = if user == u then cs else (u, sockets) ∷ pop user cs

-- The dict makes an empty set for a user who has none.
unfoldable pub connect : ℕ → ℕ → Connections → Connections
connect user socket [] = (user, socket ∷ []) ∷ []
connect user socket ((u, sockets) ∷ cs) =
    if user == u then (u, add socket sockets) ∷ cs else (u, sockets) ∷ connect user socket cs

abbrev pub after_discard : ℕ → List ℕ → Connections → Connections
after_discard user [] cs = pop user cs
after_discard user (s ∷ ss) cs = replace user (s ∷ ss) cs

unfoldable pub disconnect : ℕ → ℕ → Connections → Connections
disconnect user socket cs = elim (lookup user cs) [
  | none ↦ cs
  | some sockets ↦ after_discard user (discard socket sockets) cs
]

abbrev pub is_filled : Option (List ℕ) → Bool
is_filled none = false
is_filled (some []) = false
is_filled (some (_ ∷ _)) = true

unfoldable pub is_connected_locally : ℕ → Connections → Bool
is_connected_locally user cs = is_filled (lookup user cs)

-- The loop of `send_local`: one `send_json` after the other until one of them raises. `works`
-- says whether a send to the socket goes through.
unfoldable pub send_all : (ℕ → Bool) → Frame → List ℕ → List (ℕ × Frame) × Bool
send_all works frame [] = ([], true)
send_all works frame (s ∷ ss) =
    let (later, done) = send_all works frame ss in
    if works s then ((s, frame) ∷ later, done) else ([], false)

-- What `send_local` did: the frames that went out, and its result; `none` is an exception.
pub record Delivery : Type 0 where
  pub frames : List (ℕ × Frame)
  pub result : Option Bool

unfoldable pub send_sockets : (ℕ → Bool) → Frame → List ℕ → Delivery
unfolding send_all
send_sockets works frame [] = record { frames = []; result = some false }
send_sockets works frame (s ∷ ss) =
    let (out, done) = send_all works frame (s ∷ ss) in
    record { frames = out; result = if done then some true else none }

abbrev pub sockets_of : Option (List ℕ) → List ℕ
sockets_of none = []
sockets_of (some ss) = ss

unfoldable pub send_local : (ℕ → Bool) → ℕ → Frame → Connections → Delivery
unfolding send_sockets
send_local works user frame cs = send_sockets works frame (sockets_of (lookup user cs))
