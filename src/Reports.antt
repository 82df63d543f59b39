-- ===== src/Reports.antt =====
-- app/tasks/reports.py, the two routes of app/api/admin.py that ask for a report, and
-- app/schemas/report.py.
pub mod Counts
use fastapi_auth_api.Base.{
  ℕ, suc, String, Bool, true, ◌&&◌, Option, none, some, List, [], ◌∷◌, ◌++◌, map, keep, any, length,
  ◌==◌, str_eq, if◌then◌else◌,
}
use fastapi_auth_api.Http.{Action, pure, ◌>>=◌}
use fastapi_auth_api.Models.{User, Role}
use fastapi_auth_api.Services.{Services, World}
use fastapi_auth_api.Rbac.{require_permissions}

-- What the task returns; a dict is the list of its entries.
pub record Report : Type 0 where
  pub total_users : ℕ
  pub active_users : ℕ
  pub verified_users : ℕ
  pub users_by_role : List (String × ℕ)

abbrev pub holds_role : Role → User → Bool
holds_role role user = any (λ id. role.id == id) user.roles

-- One row for each role and each user who holds it, with the name of the role.
abbrev pub role_name_rows : List Role → List User → List String
role_name_rows [] users = []
role_name_rows (role ∷ roles) users =
    map (λ _. role.name) (keep (holds_role role) users) ++ role_name_rows roles users

abbrev pub count_one : String → List (String × ℕ) → List (String × ℕ)
count_one name [] = (name, 1) ∷ []
count_one name ((n, count) ∷ rest) =
    if str_eq name n then (n, suc count) ∷ rest else (n, count) ∷ count_one name rest

-- `group_by(Role.name)` with the number of rows of each group.
abbrev pub grouped : List String → List (String × ℕ)
grouped [] = []
grouped (name ∷ names) = count_one name (grouped names)

module _ (sv : Services) where
  unfoldable pub generate_user_summary_report : World sv → Report
  generate_user_summary_report w =
      let users = sv.users.scalars (λ _. true) w.users in
      record {
        total_users = length users;
        active_users = length (sv.users.scalars (λ u. u.is_active) w.users);
        verified_users = length (sv.users.scalars (λ u. u.is_verified) w.users);
        users_by_role = grouped (role_name_rows (sv.roles.scalars (λ _. true) w.roles) users);
      }

-- A queued task, or what Celery knows of one by its id.
pub record AsyncResult : Type 0 where
  pub id : String
  pub status : String
  pub ready : Bool
  pub successful : Bool
  pub result : Option Report

pub record ReportTaskResponse : Type 0 where
  pub task_id : String
  pub status : String

pub record ReportStatusResponse : Type 0 where
  pub task_id : String
  pub status : String
  pub result : Option Report

-- `delay` is what `.delay()` returns, `async_result` what Celery knows at the time of the call.
module _ (sv : Services) (now : ℕ) (token : sv.jwt.Token) where
  unfoldable pub trigger_user_summary_report : AsyncResult → Action (World sv) ReportTaskResponse
  trigger_user_summary_report delay = require_permissions sv now token ("users:read" ∷ []) >>= λ _.
      pure (record { task_id = delay.id; status = delay.status })

  unfoldable pub get_report_status :
      (String → AsyncResult) → String → Action (World sv) ReportStatusResponse
  get_report_status async_result task_id =
      let result = async_result task_id in
      require_permissions sv now token ("users:read" ∷ []) >>= λ _. pure (record {
        task_id = task_id;
        status = result.status;
        result = if result.ready && result.successful then result.result else none;
      })
