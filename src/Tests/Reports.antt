-- ===== src/Tests/Reports.antt =====
-- The report on two accounts.
use fastapi_auth_api.Base.{◌≡◌, refl, none, [], ◌∷◌}
use fastapi_auth_api.Models.{Role}
use fastapi_auth_api.Reports.{grouped, role_name_rows}
use fastapi_auth_api.Tests.Fixtures.{jane}

abbrev role : Role
role = record { id = 4; name = "user"; description = none; permissions = [] }

counted :
    grouped (
      role_name_rows
        (role ∷ record role { id = 5; name = "admin" } ∷ [])
        (record jane { roles = 4 ∷ [] } ∷ record jane { id = 2; roles = 5 ∷ 4 ∷ [] } ∷ []))
    ≡ ("admin", 1) ∷ ("user", 2) ∷ []
counted = refl
