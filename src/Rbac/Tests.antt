-- ===== src/Rbac/Tests.antt =====
-- Examples of rbac.go.
use iflygo.Prelude.{ℕ, ◌≡◌, refl, String, Bool, true, false, Option, none, some, List, [], ◌∷◌, inl}
use iflygo.Prelude.Int.{ℤ, pos}
use iflygo.Access.{User, is_super_admin, has_role, validate_password}
use iflygo.Rbac.{
  Account, find_account, set_tenant_roles, set_disabled, delete_account, reset_password, is_super,
  is_outside, has_admin_role, resolve_target, normalize_roles,
}
use iflygo.Rbac.Escalation.{protected_kept, no_new_super}
use iflygo.Rbac.Race.{stale_check}

abbrev an_account : String → List String → Account
an_account name roles = record {
  username = name;
  tenant = pos 2;
  roles = roles;
  is_admin = false;
  disabled = false;
  password_hash = "h";
}

abbrev chief : Account
chief = an_account "chief" ("superadmin" ∷ [])

abbrev accounts : List Account
accounts = an_account "bob" ("user" ∷ []) ∷ chief ∷ []

-- `bob` has become an administrator.
abbrev later : List Account
later = an_account "bob" ("admin" ∷ []) ∷ chief ∷ []

abbrev keeper : Option User
keeper =
    some (record { username = "ann"; is_admin = true; tenant_id = pos 2; roles = "admin" ∷ [] })

abbrev same_text : String → String
same_text s = s

abbrev any_tenant : ℤ → Bool
any_tenant t = true

abbrev twelve : String → ℕ
twelve s = 12

protected_kept_example :
    (find_account "chief"
        (set_tenant_roles same_text any_tenant keeper "chief"
          (pos 2)
          ("user" ∷ [])
          accounts
          accounts).1
      ≡ some chief)
    × (find_account "chief" (set_disabled keeper "chief" true accounts accounts).1 ≡ some chief)
unfolding find_account is_outside is_super is_super_admin has_role has_admin_role
protected_kept_example =
    protected_kept same_text any_tenant keeper "chief" (pos 2) ("user" ∷ []) true accounts accounts
      "chief" chief refl refl

no_new_super_example : find_account "chief" accounts ≡ some chief
unfolding find_account is_super is_super_admin has_role set_tenant_roles resolve_target
    normalize_roles is_outside has_admin_role
no_new_super_example =
    no_new_super same_text any_tenant twelve same_text keeper "bob" "password-12" (pos 2)
      ("admin" ∷ []) accounts accounts "chief" chief refl refl (inl refl)

stale_check_example :
    (find_account "bob" (delete_account keeper "bob" accounts later).1 ≡ none)
    × (find_account "bob"
          (reset_password twelve same_text keeper "bob" "password-12" accounts later).1
        ≡ some (record (an_account "bob" ("admin" ∷ [])) { password_hash = "password-12" }))
unfolding find_account is_outside is_super is_super_admin has_role has_admin_role validate_password
stale_check_example =
    stale_check twelve same_text keeper "bob" "password-12" accounts later
      (an_account "bob" ("user" ∷ [])) (an_account "bob" ("admin" ∷ [])) refl refl refl refl refl
      refl
