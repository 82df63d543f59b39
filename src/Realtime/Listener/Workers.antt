-- ===== src/Realtime/Listener/Workers.antt =====
-- A message from one worker to a user who is connected to another.
use fastapi_auth_api.Base.{
  ℕ, ◌≡◌, refl, String, after_prefix, ap, ◌∙◌, Bool, true, false, not, ◌||◌, Option, none, some,
  inl, inr, List, [], ◌∷◌, ◌++◌, map, pos, arith, All, if◌then◌else◌, Bool-cases,
}
use Prim.Native.String.{◌++◌ as ◌&◌}
use text.Mathlib.TextLemmas.{nil-append, cons-append}
use text.Mathlib.TextPositions.{eq_refl}
use mathlib.Core.List.{append-nil}
use fastapi_auth_api.Http.{ok}
use fastapi_auth_api.Http.Rules.{bind_ok}
use fastapi_auth_api.Services.{Services, World}
use fastapi_auth_api.Connections.{
  is_filled, Frame, lookup, sockets_of, is_connected_locally, send_sockets, send_local,
}
use fastapi_auth_api.Realtime.{publish, publish_to_user}
use fastapi_auth_api.Realtime.Delivery.{to_each, send_all-to_each, publish_to_user_delivers}
use fastapi_auth_api.Realtime.Listener.{JsonTexts, parse, receive_item, listen, published_item}

after_prefix-append : (p s : String) → after_prefix p (p & s) ≡ some s
after_prefix-append String.[] s = rw (nil-append s) refl
after_prefix-append (String.◌∷◌ c p) s =
    rw (cons-append, eq_refl (String.◌∷◌ c String.[])) (after_prefix-append p s)

module _ (sv : Services) (json : JsonTexts) (works : ℕ → Bool) where
  parse-published_item :
      (user : ℕ) (frame : Frame)
      → parse sv json ("ws:user:" & sv.runtime.str user) (json.dumps frame) ≡ some (pos user, frame)
  parse-published_item user frame =
      rw
        (
          after_prefix-append "ws:user:" (sv.runtime.str user),
          sv.runtime.int-str user,
          json.loads-dumps frame,
        )
        refl

  -- A message of another worker goes to each open socket of its user, while these work.
  receive_item-published_item :
      (user : ℕ) (frame : Frame) (w : World sv)
      → All (λ s. works s ≡ true) (sockets_of (lookup user w.connections))
      → receive_item sv json works (published_item sv json (sv.runtime.str user, frame)) w ≡ (
        ok tt,
        record w { sent = w.sent ++ to_each frame (sockets_of (lookup user w.connections)) },
      )
  unfolding receive_item send_local send_sockets
  receive_item-published_item user frame w h =
      rw (parse-published_item user frame)
        (ground (arith, send_all-to_each works frame (sockets_of (lookup user w.connections)) h))

  listen-published_item :
      (user : ℕ) (frame : Frame) (w : World sv)
      → All (λ s. works s ≡ true) (sockets_of (lookup user w.connections))
      → listen sv json works (published_item sv json (sv.runtime.str user, frame) ∷ []) w ≡ (
        ok tt,
        record w { sent = w.sent ++ to_each frame (sockets_of (lookup user w.connections)) },
      )
  unfolding listen
  listen-published_item user frame w h =
      bind_ok (receive_item sv json works (published_item sv json (sv.runtime.str user, frame)))
        (λ _. listen sv json works []) w
        (record w { sent = w.sent ++ to_each frame (sockets_of (lookup user w.connections)) })
        (receive_item-published_item user frame w h)

  -- What a worker sends to the sockets of a user that are open at it, in the given worker.
  abbrev pub sent_here : ℕ → Frame → World sv → List (ℕ × Frame)
  sent_here user frame w = to_each frame (sockets_of (lookup user w.connections))

  -- What goes out to the other workers: nothing, where the user is connected here or Redis is out of reach.
  abbrev pub passed_on : Bool → ℕ → Frame → World sv → List (String × Frame)
  passed_on reachable user frame w =
      if is_connected_locally user w.connections || not reachable
      then []
      else (sv.runtime.str user, frame) ∷ []

  -- The state after a message, by the sockets of its user and whether Redis can be reached.
  state_after :
      (reachable : Bool) (user : ℕ) (frame : Frame) (w : World sv) (o : Option (List ℕ))
      → (if is_filled o
          then record w { sent = w.sent ++ to_each frame (sockets_of o) }
          else publish sv works reachable
              (sv.runtime.str user)
              frame
              (record w { sent = w.sent ++ [] }))
        ≡ record w {
          sent = w.sent ++ to_each frame (sockets_of o);
          published =
              w.published
              ++ (if is_filled o || not reachable then [] else (sv.runtime.str user, frame) ∷ []);
        }
  state_after true user frame w none = refl
  state_after false user frame w none = rw (append-nil w.published) refl
  state_after true user frame w (some []) = refl
  state_after false user frame w (some []) = rw (append-nil w.published) refl
  state_after reachable user frame w (some (s ∷ ss)) = rw (append-nil w.published) refl

  -- While all open sockets of the user work, a message to the user goes to each of them at the
  -- worker that it comes from. Where there is none and Redis can be reached, it is published, and
  -- the listener of another worker hands it to each of the sockets of the user there, each time
  -- once. Neither raises anything or changes anything else.
  pub message_crosses_workers :
      (reachable : Bool) (user : ℕ) (frame : Frame) (here there : World sv)
      → All (λ s. works s ≡ true) (sockets_of (lookup user here.connections))
      → All (λ s. works s ≡ true) (sockets_of (lookup user there.connections))
      → (publish_to_user sv works reachable user frame here ≡ (
        ok tt,
        record here {
          sent = here.sent ++ sent_here user frame here;
          published = here.published ++ passed_on reachable user frame here;
        },
      ))
        × (listen sv json works
              (map (published_item sv json) (passed_on reachable user frame here))
              there
            ≡ (
              ok tt,
              if is_connected_locally user here.connections || not reachable
                  then there
                  else record there { sent = there.sent ++ sent_here user frame there },
            ))
  unfolding is_connected_locally listen
  message_crosses_workers reachable user frame here there h h' = (
    publish_to_user_delivers sv works reachable user frame here h
        ∙ ap (λ w. (ok tt, w))
            (state_after reachable user frame here (lookup user here.connections)),
    elim (Bool-cases (is_connected_locally user here.connections || not reachable)) [
      | inl e ↦ rw (e) refl
      | inr e ↦ rw (e) (listen-published_item user frame there h')
    ],
  )
