-- ===== src/Rbac.antt =====
-- internal/rbac/rbac.go: the accounts of a tenant and their roles.
--
-- The state is the table local_users. An operation reads the target's row, checks, and writes in a
-- later statement; in between others may write, so it takes the table that it read (`seen`) and the
-- table that it writes to (`now`). A statement that fails ends the operation before its write, and
-- is not modelled. `trim` is `strings.TrimSpace`, `hash` is bcrypt; names are trimmed already.
pub mod Escalation
pub mod Race
mod Tests
use iflygo.Prelude.{
  ℕ, String, Bool, true, false, not, ◌&&◌, ◌||◌, Option, none, some, List, [], ◌∷◌, ◌++◌, map,
  str_eq, if◌then◌else◌, any_of, find_first, keep_if,
}
use iflygo.Prelude.Int.{ℤ, pos, negsuc, leb_ℤ, ◌==ℤ◌}
use iflygo.Access.{User, is_super_admin, role_user, role_admin, role_super_admin, validate_password}

pub record Account : Type 0 where
  pub username : String
  pub tenant : ℤ
  pub roles : List String
  pub is_admin : Bool
  pub disabled : Bool
  pub password_hash : String

pub data RbacError : Type 0 where
  missing_name weak_password bad_role no_tenant grant_super no_user other_tenant admin_target :
      RbacError
  not_found own_account taken : RbacError

pub data Checked (A : Type 0) : Type 0 where
  accepted : A → Checked A
  refused : RbacError → Checked A

abbrev pub contains_role : List String → String → Bool
contains_role roles want = any_of (λ r. str_eq r want) roles

abbrev pub valid_role : String → Bool
valid_role r = str_eq r role_user || (str_eq r role_admin || str_eq r role_super_admin)

unfoldable pub has_admin_role : List String → Bool
has_admin_role roles = contains_role roles role_admin || contains_role roles role_super_admin

-- The loop of `normalizeRoles`; `none` is an error.
abbrev normalize_loop : (trim : String → String) → List String → List String → Option (List String)
normalize_loop trim out [] = some out
normalize_loop trim out (r ∷ rs) =
    let role = trim r in
    let same = normalize_loop trim out rs in
    let more = normalize_loop trim (out ++ (role ∷ [])) rs in
    if str_eq role ""
    then same
    else if not (valid_role role)
    then none
    else if contains_role out role
    then same
    else more

abbrev or_user : Option (List String) → Option (List String)
or_user none = none
or_user (some []) = some (role_user ∷ [])
or_user (some (r ∷ rs)) = some (r ∷ rs)

unfoldable pub normalize_roles : (trim : String → String) → List String → Option (List String)
normalize_roles trim roles = or_user (normalize_loop trim [] roles)

-- `actor != nil && actor.IsSuperAdmin()`
unfoldable pub is_super : Option User → Bool
unfolding is_super_admin
is_super none = false
is_super (some u) = is_super_admin u

abbrev resolve_own : Option User → ℤ → Checked ℤ
resolve_own none want = refused no_user
resolve_own (some u) want =
    if not (leb_ℤ want (pos 0)) && not (want ==ℤ u.tenant_id)
    then refused other_tenant
    else accepted u.tenant_id

abbrev resolve_any : (tenant_exists : ℤ → Bool) → Option User → ℤ → Checked ℤ
resolve_any tenant_exists none want = refused no_user
resolve_any tenant_exists (some u) want =
    let tenant = if leb_ℤ want (pos 0) then u.tenant_id else want in
    if tenant_exists tenant then accepted tenant else refused no_tenant

-- `resolveTarget`
unfoldable pub resolve_target :
    (tenant_exists : ℤ → Bool) → Option User → ℤ → List String → Checked ℤ
resolve_target tenant_exists actor want roles =
    if is_super actor
    then resolve_any tenant_exists actor want
    else if contains_role roles role_super_admin
    then refused grant_super
    else resolve_own actor want

-- `targetAccount`
unfoldable pub find_account : String → List Account → Option Account
find_account username = find_first (λ a. str_eq a.username username)

abbrev own_tenant : Option User → ℤ
own_tenant none = negsuc 0
own_tenant (some u) = u.tenant_id

-- For all but a super administrator: an account of another tenant or of an administrator.
unfoldable pub is_outside : Option User → Account → Bool
unfolding has_admin_role
is_outside actor a =
    not (is_super actor) && (not (a.tenant ==ℤ own_tenant actor) || has_admin_role a.roles)

-- An account that an actor may not touch.
abbrev pub is_protected : Option User → Account → Bool
is_protected none a = true
is_protected (some u) a = is_outside (some u) a

abbrev refusal : Option User → Account → RbacError
refusal actor a = if a.tenant ==ℤ own_tenant actor then admin_target else other_tenant

abbrev check_account : Option User → Option Account → Option RbacError
check_account actor none = some not_found
check_account actor (some a) = if is_protected actor a then some (refusal actor a) else none

-- The check of `Delete` and `ResetPassword`.
abbrev check_target : Option User → Option Account → Option RbacError
check_target actor none = some not_found
check_target actor (some a) = if is_outside actor a then some (refusal actor a) else none

-- An update of the rows with the name, with the check of the actor repeated in its condition.
abbrev guarded_row : Option User → String → (Account → Account) → Account → Account
guarded_row actor username f a =
    if str_eq a.username username && not (is_protected actor a) then f a else a

abbrev guarded_update :
    Option User → String → (Account → Account) → List Account → Checked (Unit {0}) × List Account
guarded_update actor username f now = (
  if any_of (λ a. str_eq a.username username && not (is_protected actor a)) now
      then accepted tt
      else refused not_found,
  map (guarded_row actor username f) now,
)

abbrev pub with_roles : ℤ → List String → Account → Account
with_roles tenant roles a = record a {
  tenant = tenant;
  roles = roles;
  is_admin = has_admin_role roles;
}

abbrev set_checked :
    Option User
    → String
    → List String
    → Checked ℤ
    → Option RbacError
    → List Account
    → Checked (Unit {0}) × List Account
set_checked actor username roles (refused e) check now = (refused e, now)
set_checked actor username roles (accepted tenant) (some e) now = (refused e, now)
set_checked actor username roles (accepted tenant) none now =
    guarded_update actor username (with_roles tenant roles) now

abbrev set_normal :
    (tenant_exists : ℤ → Bool)
    → Option User
    → String
    → ℤ
    → Option (List String)
    → Option Account
    → List Account
    → Checked (Unit {0}) × List Account
set_normal tenant_exists actor username tenant none found now = (refused bad_role, now)
set_normal tenant_exists actor username tenant (some roles) none now = (refused not_found, now)
set_normal tenant_exists actor username tenant (some roles) (some a) now =
    set_checked actor username roles (resolve_target tenant_exists actor tenant roles)
      (check_account actor (some a)) now

-- `SetTenantRoles`
unfoldable pub set_tenant_roles :
    (trim : String → String) (tenant_exists : ℤ → Bool)
    → Option User
    → String
    → ℤ
    → List String
    → (seen now : List Account) → Checked (Unit {0}) × List Account
set_tenant_roles trim tenant_exists actor username tenant roles seen now =
    set_normal tenant_exists actor username tenant (normalize_roles trim roles)
      (find_account username seen) now

abbrev is_self : Option User → String → Bool
is_self none username = false
is_self (some u) username = str_eq u.username username

abbrev disable_checked :
    Option User
    → String
    → Bool
    → Option RbacError
    → List Account
    → Checked (Unit {0}) × List Account
disable_checked actor username disabled (some e) now = (refused e, now)
disable_checked actor username disabled none now =
    guarded_update actor username (λ a. record a { disabled = disabled }) now

-- `SetDisabled`; a super administrator's target is not read first.
unfoldable pub set_disabled :
    Option User → String → Bool → (seen now : List Account) → Checked (Unit {0}) × List Account
set_disabled actor username disabled seen now =
    if is_self actor username && disabled
    then (refused own_account, now)
    else disable_checked actor username disabled
        (if is_super actor then none else check_account actor (find_account username seen)) now

-- An update of the rows with the name, with no further condition.
abbrev plain_update :
    String → (List Account → List Account) → List Account → Checked (Unit {0}) × List Account
plain_update username f now =
    if any_of (λ a. str_eq a.username username) now
    then (accepted tt, f now)
    else (refused not_found, now)

abbrev write_checked :
    String
    → (List Account → List Account)
    → Option RbacError
    → List Account
    → Checked (Unit {0}) × List Account
write_checked username f (some e) now = (refused e, now)
write_checked username f none now = plain_update username f now

-- `Delete`, without the rows of other tables that go with the account.
unfoldable pub delete_account :
    Option User → String → (seen now : List Account) → Checked (Unit {0}) × List Account
delete_account actor username seen now =
    if str_eq username ""
    then (refused missing_name, now)
    else if is_self actor username
    then (refused own_account, now)
    else write_checked username (keep_if (λ a. not (str_eq a.username username)))
        (check_target actor (find_account username seen)) now

abbrev pub with_password : String → String → Account → Account
with_password username h a =
    if str_eq a.username username then record a { password_hash = h } else a

abbrev reset_valid :
    Bool → Checked (Unit {0}) × List Account → List Account → Checked (Unit {0}) × List Account
reset_valid true answer now = answer
reset_valid false answer now = (refused weak_password, now)

-- `ResetPassword`
unfoldable pub reset_password :
    (byte_len : String → ℕ) (hash : String → String)
    → Option User
    → String
    → String
    → (seen now : List Account) → Checked (Unit {0}) × List Account
unfolding validate_password
reset_password byte_len hash actor username password seen now =
    if str_eq username ""
    then (refused missing_name, now)
    else reset_valid
        (elim (validate_password byte_len "" password) [ none ↦ true | some e ↦ false ])
        (write_checked username (map (with_password username (hash password)))
          (check_target actor (find_account username seen)) now)
        now

abbrev new_account : String → ℤ → List String → String → Account
new_account username tenant roles h = record {
  username = username;
  tenant = tenant;
  roles = roles;
  is_admin = has_admin_role roles;
  disabled = false;
  password_hash = h;
}

abbrev insert_row : (taken_name : Bool) → Account → List Account → Checked (Unit {0}) × List Account
insert_row true a now = (refused taken, now)
insert_row false a now = (accepted tt, now ++ (a ∷ []))

abbrev create_in :
    String → String → List String → Checked ℤ → List Account → Checked (Unit {0}) × List Account
create_in username h roles (refused e) now = (refused e, now)
create_in username h roles (accepted tenant) now =
    insert_row (any_of (λ a. str_eq a.username username) now) (new_account username tenant roles h)
      now

abbrev create_normal :
    (tenant_exists : ℤ → Bool)
    → Option User
    → String
    → String
    → ℤ
    → Option (List String)
    → List Account
    → Checked (Unit {0}) × List Account
create_normal tenant_exists actor username h tenant none now = (refused bad_role, now)
create_normal tenant_exists actor username h tenant (some roles) now =
    create_in username h roles (resolve_target tenant_exists actor tenant roles) now

-- `Create`; that a name is unique is a constraint of the table.
unfoldable pub create_account :
    (trim : String → String) (tenant_exists : ℤ → Bool) (byte_len : String → ℕ)
    (hash : String → String)
    → Option User
    → String
    → String
    → ℤ
    → List String
    → List Account
    → Checked (Unit {0}) × List Account
create_account trim tenant_exists byte_len hash actor username password tenant roles now =
    if str_eq (trim username) "" || str_eq password ""
    then (refused missing_name, now)
    else reset_valid
        (elim (validate_password byte_len "" password) [ none ↦ true | some e ↦ false ])
        (create_normal tenant_exists actor username (hash password) tenant
          (normalize_roles trim roles) now)
        now
