-- ===== src/Access/Isolation.antt =====
-- Tenant isolation of scope.go: what a user's queries see.
use iflygo.Prelude.{◌≡◌, true, false, none, some, arith}
use iflygo.Prelude.Int.{ℤ, pos, ◌<ℤ◌}
use iflygo.Access.{
  User, Scope, can_access_tenant, where_tenant, holds, allows, for_user, tenant_for_write,
}

-- The condition of a query and the check of a single row agree on every row.
where-allows : (s : Scope) (tenant : ℤ) → holds (where_tenant s) tenant ≡ allows s tenant
unfolding where_tenant allows
where-allows s tenant = ground arith

-- A query for a user sees a row exactly if the user may access the row's tenant, where the user's
-- own tenant is a valid one, by the condition as by the check of a single row; and what the user
-- writes is visible to the user.
pub for_user-sees :
    (u : User) (tenant : ℤ)
    → pos 0 <ℤ u.tenant_id
    → (holds (where_tenant (for_user (some u))) tenant ≡ can_access_tenant u tenant)
      × (allows (for_user (some u)) tenant ≡ can_access_tenant u tenant)
      × (allows (for_user (some u)) (tenant_for_write (for_user (some u))) ≡ true)
unfolding where_tenant allows for_user can_access_tenant tenant_for_write
for_user-sees u tenant h = ground arith

-- A missing user sees no row of any tenant that exists.
pub for_user-none :
    (tenant : ℤ)
    → pos 0 <ℤ tenant
    → (holds (where_tenant (for_user none)) tenant ≡ false)
      × (allows (for_user none) tenant ≡ false)
unfolding where_tenant allows for_user
for_user-none tenant h = ground arith
