-- ===== src/Access.antt =====
-- internal/auth/auth.go and internal/pkg/scope/scope.go: who a user is, and which tenants' rows a
-- query for that user may see. `nil` for a missing user is `none`.
pub mod Isolation
mod Tests
use iflygo.Prelude.{
  ℕ, String, Bool, true, false, Option, none, some, List, [], ◌∷◌, str_eq, ltb, if◌then◌else◌,
  any_of,
}
use iflygo.Prelude.Int.{ℤ, pos, negsuc, leb_ℤ, ◌==ℤ◌}

pub record User : Type 0 where
  pub username : String
  pub is_admin : Bool
  pub tenant_id : ℤ
  pub roles : List String

abbrev pub role_user : String
role_user = "user"

abbrev pub role_admin : String
role_admin = "admin"

abbrev pub role_super_admin : String
role_super_admin = "superadmin"

unfoldable pub has_role : User → String → Bool
has_role u role = any_of (λ r. str_eq r role) u.roles

unfoldable pub is_super_admin : User → Bool
unfolding has_role
is_super_admin u = has_role u role_super_admin

unfoldable pub can_access_tenant : User → ℤ → Bool
unfolding is_super_admin
can_access_tenant u tenant = if is_super_admin u then true else u.tenant_id ==ℤ tenant

pub data PasswordError : Type 0 where
  too_short too_long unchanged : PasswordError

-- `ValidatePassword`, on the lengths in bytes; `none` is success.
unfoldable pub validate_password : (byte_len : String → ℕ) → String → String → Option PasswordError
validate_password byte_len old new =
    if ltb (byte_len new) 8
    then some PasswordError.too_short
    else if ltb 72 (byte_len new)
    then some PasswordError.too_long
    else if str_eq old ""
    then none
    else if str_eq old new
    then some PasswordError.unchanged
    else none

pub record Scope : Type 0 where
  pub tenant_id : ℤ
  pub cross_tenant : Bool

unfoldable pub normalize_tenant : ℤ → ℤ
normalize_tenant id = if leb_ℤ id (pos 0) then pos 1 else id

unfoldable pub new_scope : ℤ → Bool → Scope
new_scope tenant cross = record {
  tenant_id = if leb_ℤ tenant (pos 0) then pos 1 else tenant;
  cross_tenant = cross;
}

-- A condition of an SQL query on a row's `tenant_id`, with its argument.
pub data Condition : Type 0 where
  always : Condition
  tenant_is : ℤ → Condition

-- `Where`: the condition's text is its constructor.
unfoldable pub where_tenant : Scope → Condition
where_tenant s = if s.cross_tenant then always else tenant_is s.tenant_id

abbrev pub holds : Condition → ℤ → Bool
holds always tenant = true
holds (tenant_is t) tenant = tenant ==ℤ t

unfoldable pub allows : Scope → ℤ → Bool
allows s tenant = if s.cross_tenant then true else tenant ==ℤ s.tenant_id

unfoldable pub tenant_for_write : Scope → ℤ
tenant_for_write s = s.tenant_id

unfoldable pub for_user : Option User → Scope
unfolding is_super_admin normalize_tenant
for_user none = record { tenant_id = negsuc 0; cross_tenant = false }
for_user (some u) =
    if is_super_admin u
    then record { tenant_id = normalize_tenant u.tenant_id; cross_tenant = true }
    else record { tenant_id = normalize_tenant u.tenant_id; cross_tenant = false }

unfoldable pub system_scope : Scope
system_scope = record { tenant_id = pos 1; cross_tenant = true }
