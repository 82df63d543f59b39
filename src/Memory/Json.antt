-- ===== src/Memory/Json.antt =====
-- A concrete JSON of the messages between workers: a letter for the kind, then the text; before it
-- the user of a message, as so many digits 1.
use Prim.Native.Char.{Char}
use Prim.Native.String.{[], ◌∷◌}
use fastapi_auth_api.Base.{
  ℕ, zero, suc, ◌+◌, ◌≡◌, refl, ap, ◌∙◌, String, Option, none, some, str_eq, if◌then◌else◌, arith,
}
use fastapi_auth_api.Connections.{Frame, message, notification, error}
use fastapi_auth_api.Realtime.Listener.{JsonTexts}
use fastapi_auth_api.Memory.Text.{char_one}

abbrev char_message : Char
char_message = "m"

abbrev char_notification : Char
char_notification = "n"

abbrev char_error : Char
char_error = "e"

abbrev numbered : ℕ → String → String
numbered zero s = s
numbered (suc n) s = char_one ∷ numbered n s

abbrev dumps : Frame → String
dumps (message user body) = numbered user (char_message ∷ body)
dumps (notification body) = char_notification ∷ body
dumps (error body) = char_error ∷ body

abbrev read : ℕ → String → Option Frame
read n [] = none
read n (c ∷ s) =
    let later = read (suc n) s in
    if str_eq (c ∷ []) "1"
    then later
    else (if str_eq (c ∷ []) "m"
        then some (message n s)
        else (if str_eq (c ∷ []) "n"
            then some (notification s)
            else (if str_eq (c ∷ []) "e" then some (error s) else none)))

read-dumps_message :
    (n user : ℕ) (body : String)
    → read n (numbered user (char_message ∷ body)) ≡ some (message (n + user) body)
read-dumps_message n zero body = ap (λ k. some (message k body)) (omega arith)
read-dumps_message n (suc user) body =
    read-dumps_message (suc n) user body ∙ ap (λ k. some (message k body)) (omega arith)

pub read-dumps : (frame : Frame) → read 0 (dumps frame) ≡ some frame
read-dumps (message user body) =
    read-dumps_message 0 user body ∙ ap (λ k. some (message k body)) (omega arith)
read-dumps (notification body) = refl
read-dumps (error body) = refl

abbrev pub memory_json : JsonTexts
memory_json = record { dumps = dumps; loads = read 0; loads-dumps = read-dumps }
