-- ===== src/Cleanup.antt =====
-- app/tasks/cleanup.py: the daily task that deletes accounts that were never verified.
pub mod Effect
use fastapi_auth_api.Base.{ℕ, ◌-◌, ◌≡◌, Bool, not, ◌&&◌, List, ltb, length, any, ◌==◌}
use fastapi_auth_api.Models.{User}
use fastapi_auth_api.Services.{Services, World}
use fastapi_auth_api.Services.Table.Deletion.{delete_where, unless, get-delete_where}
use fastapi_auth_api.Tokens.{days}

abbrev pub unverified_user_max_age_days : ℕ
unverified_user_max_age_days = 7

-- `is_verified` is false and `created_at < cutoff`; times before the epoch stop at it.
abbrev pub is_stale : ℕ → User → Bool
is_stale now u = not u.is_verified && ltb u.created_at (now - days unverified_user_max_age_days)

module _ (sv : Services) where
  -- The id is that of one of these users.
  abbrev pub owned_by : List User → ℕ → Bool
  owned_by users user_id = any (λ u. user_id == u.id) users

  -- The number of deleted accounts, and the state after. The foreign keys of `oauth_accounts` and
  -- `file_uploads` are declared ON DELETE CASCADE, so their rows of a deleted user go as well.
  unfoldable pub cleanup_unverified_users : ℕ → World sv → ℕ × World sv
  unfolding delete_where
  cleanup_unverified_users now w =
      let stale_users = sv.users.scalars (is_stale now) w.users in
      (
        length stale_users,
        record w {
          users = delete_where sv.users (is_stale now) w.users;
          links = delete_where sv.links (λ a. owned_by stale_users a.user_id) w.links;
          files = delete_where sv.files (λ f. owned_by stale_users f.user_id) w.files;
        },
      )

  -- The rows after a cleanup, by its own tests.
  pub rows_after :
      (now i j k : ℕ) (w : World sv)
      → (sv.users.get i (cleanup_unverified_users now w).1.users
          ≡ unless sv.users (is_stale now) (sv.users.get i w.users))
        × (sv.links.get j (cleanup_unverified_users now w).1.links
            ≡ unless sv.links
                (λ a. owned_by (sv.users.scalars (is_stale now) w.users) a.user_id)
                (sv.links.get j w.links))
        × (sv.files.get k (cleanup_unverified_users now w).1.files
            ≡ unless sv.files
                (λ f. owned_by (sv.users.scalars (is_stale now) w.users) f.user_id)
                (sv.files.get k w.files))
  unfolding cleanup_unverified_users
  rows_after now i j k w =
      let stale_users = sv.users.scalars (is_stale now) w.users in
      (
        get-delete_where sv.users (is_stale now) i w.users,
        get-delete_where sv.links (λ a. owned_by stale_users a.user_id) j w.links,
        get-delete_where sv.files (λ f. owned_by stale_users f.user_id) k w.files,
      )
