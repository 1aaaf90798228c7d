-- ===== src/Access/Tests.antt =====
-- Examples of auth.go and scope.go.
use iflygo.Prelude.{◌≡◌, true, some, [], ◌∷◌, arith}
use iflygo.Prelude.Int.{pos}
use iflygo.Access.{User, where_tenant, holds, allows, for_user, can_access_tenant, tenant_for_write}
use iflygo.Access.Isolation.{for_user-sees}

abbrev ann : User
ann = record { username = "ann"; is_admin = true; tenant_id = pos 2; roles = "admin" ∷ [] }

for_user-sees_example :
    (holds (where_tenant (for_user (some ann))) (pos 3) ≡ can_access_tenant ann (pos 3))
    × (allows (for_user (some ann)) (pos 3) ≡ can_access_tenant ann (pos 3))
    × (allows (for_user (some ann)) (tenant_for_write (for_user (some ann))) ≡ true)
for_user-sees_example = for_user-sees ann (pos 3) (omega arith)
