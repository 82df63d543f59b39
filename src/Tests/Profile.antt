-- ===== src/Tests/Profile.antt =====
-- A user's own account.
use fastapi_auth_api.Base.{ℕ, ◌≡◌, ◌≢◌, refl, true, false, arith}
use fastapi_auth_api.Http.{ok}
use fastapi_auth_api.Models.{User}
use fastapi_auth_api.Services.{World}
use fastapi_auth_api.Accounts.{IsConsistent}
use fastapi_auth_api.Dependencies.{get_current_user}
use fastapi_auth_api.Tokens.{decode_access_token}
use fastapi_auth_api.Blacklist.{is_token_blacklisted}
use fastapi_auth_api.Auth.Register.{register_user}
use fastapi_auth_api.Auth.Registration.{after_registration}
use fastapi_auth_api.Profile.{update_user_email, change_user_password, deactivate_user}
use fastapi_auth_api.Profile.Address.{moved, update_user_email_effect, stale_token_takes_over}
use fastapi_auth_api.Profile.Lockout.{changed, after_deactivation, deactivate_user_locks_out}
use fastapi_auth_api.Memory.{memory}
use fastapi_auth_api.Tests.Fixtures.{jane, with_jane, with_jane-IsConsistent, noon, access_payload}

abbrev moved_world : World memory
moved_world = record with_jane {
  users = memory.users.save (moved memory jane "J@x.org" with_jane) with_jane.users;
}

jane_moves :
    update_user_email memory jane "J@x.org" with_jane
    ≡ (ok (moved memory jane "J@x.org" with_jane), moved_world)
unfolding update_user_email
jane_moves = refl

update_user_email_effect_example : IsConsistent memory moved_world.users
update_user_email_effect_example =
    (update_user_email_effect memory jane "J@x.org" with_jane 1 with_jane-IsConsistent jane_moves).0

abbrev newcomer_world : World memory
newcomer_world = after_registration memory noon "jane@x.org" "Secret456" moved_world

newcomer : register_user memory noon "jane@x.org" "Secret456" moved_world ≡ (
  ok (record {
    id = 2;
    email = "jane@x.org";
    is_active = true;
    is_verified = false;
    message = "Registration successful. Check your email to verify your account.";
  }),
  newcomer_world,
)
unfolding register_user
newcomer = refl

stale_token_takes_over_example :
    (other : User) × (get_current_user memory noon access_payload newcomer_world
      ≡ (ok other, newcomer_world))
    × (other.id ≡ 2)
    × (◌≢◌ {A = ℕ} 2 1)
unfolding is_token_blacklisted
stale_token_takes_over_example =
    stale_token_takes_over memory noon noon access_payload jane "J@x.org" "Secret456" with_jane
      with_jane-IsConsistent refl jane_moves newcomer refl refl (omega arith) refl

abbrev changed_world : World memory
changed_world = record with_jane {
  users = memory.users.save (changed memory jane with_jane "Secret123" "Secret456") with_jane.users;
  draws = 1;
}

password_changed :
    change_user_password memory jane "Secret123" "Secret456" with_jane ≡ (ok tt, changed_world)
unfolding change_user_password
password_changed = refl

deactivate_user_locks_out_example :
    deactivate_user memory jane with_jane ≡ (ok tt, after_deactivation memory jane with_jane)
unfolding decode_access_token
deactivate_user_locks_out_example =
    (deactivate_user_locks_out memory jane with_jane noon noon access_payload
      (record { subject = "jane@x.org"; jti = "a"; expires_at = 5400000000 }) "Jane@x.org"
      "Secret123" with_jane-IsConsistent refl refl refl refl).0
