-- ===== src/Tests/Seeding.antt =====
-- Seeding empty tables, and the connection manager.
use fastapi_auth_api.Base.{ℕ, ◌≡◌, ◌↔◌, true, false, some, [], ◌∷◌, arith}
use fastapi_auth_api.Models.{Permission, Role}
use fastapi_auth_api.Rbac.Seeding.{seed_rbac_defaults}
use fastapi_auth_api.Rbac.Seeded.{seed_rbac_defaults_effect}
use fastapi_auth_api.Connections.{is_connected_locally}
use fastapi_auth_api.Connections.Refinement.{opening, closing, run, promised, connections_refine}
use fastapi_auth_api.Memory.Tables.{memory_table}
use fastapi_auth_api.Services.Table.{Table}

abbrev permission_table : Table Permission (λ p. p.id)
permission_table = memory_table (λ p. p.id)

abbrev role_table : Table Role (λ r. r.id)
role_table = memory_table (λ r. r.id)

seed_rbac_defaults_effect_example :
    (permissions : permission_table.State) × (roles : role_table.State) × (seed_rbac_defaults
        permission_table role_table
        (([], tt), ([], tt))
      ≡ some (permissions, roles))
seed_rbac_defaults_effect_example =
    let done =
      seed_rbac_defaults_effect permission_table role_table ([], tt) ([], tt)
        (λ i j a b p q e. absurd (ground arith)) in
    (done.0, done.1, done.2)

connections_refine_example :
    (is_connected_locally 1 (run (opening 1 5 ∷ opening 1 6 ∷ closing 1 5 ∷ []) []) ≡ true) ↔ (
      (s : ℕ) × (promised (opening 1 5 ∷ opening 1 6 ∷ closing 1 5 ∷ []) (λ v t. false) 1 s ≡ true))
connections_refine_example = (connections_refine (opening 1 5 ∷ opening 1 6 ∷ closing 1 5 ∷ []) 1).1
