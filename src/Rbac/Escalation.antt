-- ===== src/Rbac/Escalation.antt =====
-- Nobody but a super administrator gains rights by rbac.go.
use iflygo.Prelude.{
  ◌⊎◌, ℕ, ◌≡◌, refl, sym, ap, ◌∙◌, String, Bool, true, false, not, ◌&&◌, ◌||◌, Option, none, some,
  List, [], ◌∷◌, ◌++◌, map, arith, str_eq, if◌then◌else◌, any_of, find_first-hit, find_first-miss,
  Bool-cases, inl, inr,
}
use iflygo.Prelude.Int.{ℤ}
use iflygo.Access.{User, role_super_admin, validate_password}
use iflygo.Rbac.{
  Account, RbacError, Checked, accepted, refused, contains_role, is_super, is_protected,
  find_account, set_tenant_roles, set_disabled, create_account, create_in, create_normal,
  insert_row, new_account, reset_valid, missing_name, own_account, guarded_row, set_normal,
  set_checked, check_account, normalize_roles, resolve_target, disable_checked, with_roles, is_self,
}

guarded-username :
    (actor : Option User) (username : String) (f : Account → Account) (x : Account)
    → ((y : Account) → (f y).username ≡ y.username)
    → (guarded_row actor username f x).username ≡ x.username
guarded-username actor username f x same =
    elim (Bool-cases (str_eq x.username username && not (is_protected actor x))) [
      | inl hit ↦ simp hit (same x)
      | inr miss ↦ simp miss refl
    ]

guarded-protected :
    (actor : Option User) (username : String) (f : Account → Account) (a : Account)
    → is_protected actor a ≡ true
    → guarded_row actor username f a ≡ a
guarded-protected actor username f a p = ground arith

-- An update that keeps names leaves a protected account as it is.
find-guarded :
    (actor : Option User) (username : String) (f : Account → Account) (name : String)
    (rows : List Account) (a : Account)
    → ((x : Account) → (f x).username ≡ x.username)
    → find_account name rows ≡ some a
    → is_protected actor a ≡ true
    → find_account name (map (guarded_row actor username f) rows) ≡ some a
unfolding find_account
find-guarded actor username f name [] a same h p = cc
find-guarded actor username f name (x ∷ rows) a same h p =
    rw (guarded-username actor username f x same) (elim (Bool-cases (str_eq x.username name)) [
      | inl here ↦
          let e : x ≡ a = ground arith in rw (here, e, guarded-protected actor username f a p) refl
      | inr apart ↦ rw apart (find-guarded actor username f name rows a same (ground arith) p)
    ])

set_normal-protected :
    (tenant_exists : ℤ → Bool) (actor : Option User) (username : String) (tenant : ℤ)
    (roles : Option (List String)) (found : Option Account) (now : List Account) (name : String)
    (a : Account)
    → find_account name now ≡ some a
    → is_protected actor a ≡ true
    → find_account name (set_normal tenant_exists actor username tenant roles found now).1 ≡ some a
set_normal-protected tenant_exists actor username tenant none found now name a h p = h
set_normal-protected tenant_exists actor username tenant (some roles) none now name a h p = h
set_normal-protected tenant_exists actor username tenant (some roles) (some b) now name a h p =
    checked (resolve_target tenant_exists actor tenant roles) (check_account actor (some b))
  where
    checked :
        (r : Checked ℤ) (c : Option RbacError)
        → find_account name (set_checked actor username roles r c now).1 ≡ some a
    checked (refused e) c = h
    checked (accepted t) (some e) = h
    checked (accepted t) none =
        find-guarded actor username (with_roles t roles) name now a (λ x. refl) h p

-- A change of roles or of the disabled flag leaves every account as it is that the actor may not
-- touch (all accounts of other tenants and of administrators, for all but a super administrator),
-- also if the account became one between the check and the write.
pub protected_kept :
    (trim : String → String) (tenant_exists : ℤ → Bool) (actor : Option User) (username : String)
    (tenant : ℤ) (roles : List String) (disabled : Bool) (seen now : List Account) (name : String)
    (a : Account)
    → find_account name now ≡ some a
    → is_protected actor a ≡ true
    → (find_account name
          (set_tenant_roles trim tenant_exists actor username tenant roles seen now).1
        ≡ some a)
      × (find_account name (set_disabled actor username disabled seen now).1 ≡ some a)
unfolding set_tenant_roles set_disabled
protected_kept trim tenant_exists actor username tenant roles disabled seen now name a h p = (
  set_normal-protected tenant_exists actor username tenant (normalize_roles trim roles)
      (find_account username seen) now name a h p,
  disabled_kept (is_self actor username && disabled)
      (if is_super actor then none else check_account actor (find_account username seen)),
)
  where
    checked :
        (c : Option RbacError)
        → find_account name (disable_checked actor username disabled c now).1 ≡ some a
    checked (some e) = h
    checked none =
        find-guarded actor username (λ x. record x { disabled = disabled }) name now a (λ x. refl) h
          p

    disabled_kept :
        (self : Bool) (c : Option RbacError)
        → find_account name
            (if self
              then (refused own_account, now)
              else disable_checked actor username disabled c now).1
          ≡ some a
    disabled_kept true c = h
    disabled_kept false c = checked c

-- The new roles were not those of a super administrator.
resolve_plain :
    (tenant_exists : ℤ → Bool) (actor : Option User) (want t : ℤ) (roles : List String)
    → is_super actor ≡ false
    → resolve_target tenant_exists actor want roles ≡ accepted t
    → contains_role roles role_super_admin ≡ false
unfolding resolve_target
resolve_plain tenant_exists actor want t roles plain h =
    elim (Bool-cases (contains_role roles role_super_admin)) [
      | inr none_there ↦ none_there
      | inl there ↦ ground arith
    ]

abbrev super_row : Option Account → Bool
super_row none = false
super_row (some a) = contains_role a.roles role_super_admin

guarded_super_row :
    (actor : Option User) (username : String) (t : ℤ) (roles : List String) (x a : Account)
    → contains_role roles role_super_admin ≡ false
    → contains_role a.roles role_super_admin ≡ true
    → some (guarded_row actor username (with_roles t roles) x) ≡ some a
    → some x ≡ some a
guarded_super_row actor username t roles x a plain super e =
    row_cases (str_eq x.username username && not (is_protected actor x)) e
  where
    row_cases :
        (hit : Bool) → some (if hit then with_roles t roles x else x) ≡ some a → some x ≡ some a
    row_cases false e' = e'
    row_cases true e' =
        let clash : contains_role roles role_super_admin ≡ contains_role a.roles role_super_admin =
          ap super_row e' in
        cc

guarded_super :
    (actor : Option User) (username : String) (t : ℤ) (roles : List String) (name : String)
    (rows : List Account) (a : Account)
    → contains_role roles role_super_admin ≡ false
    → find_account name (map (guarded_row actor username (with_roles t roles)) rows) ≡ some a
    → contains_role a.roles role_super_admin ≡ true
    → find_account name rows ≡ some a
unfolding find_account
guarded_super actor username t roles name [] a plain h super = cc
guarded_super actor username t roles name (x ∷ rows) a plain h super =
    let named : Account → Bool = λ y. str_eq y.username name in
    let row = guarded_row actor username (with_roles t roles) x in
    let rest = map (guarded_row actor username (with_roles t roles)) rows in
    let kept = guarded-username actor username (with_roles t roles) x (λ y. refl) in
    elim (Bool-cases (str_eq x.username name)) [
      | inr apart ↦
          find_first-miss named x rows apart
          ∙ guarded_super actor username t roles name rows a plain
              (sym (find_first-miss named row rest (rw kept apart)) ∙ h) super
      | inl here ↦
          let e : some row ≡ some a = sym (find_first-hit named row rest (rw kept here)) ∙ h in
          find_first-hit named x rows here
          ∙ guarded_super_row actor username t roles x a plain super e
    ]

set_super :
    (tenant_exists : ℤ → Bool) (actor : Option User) (username : String) (tenant : ℤ)
    (roles : Option (List String)) (found : Option Account) (now : List Account) (name : String)
    (a : Account)
    → is_super actor ≡ false
    → contains_role a.roles role_super_admin ≡ true
    → find_account name (set_normal tenant_exists actor username tenant roles found now).1 ≡ some a
    → find_account name now ≡ some a
set_super tenant_exists actor username tenant none found now name a plain super h = h
set_super tenant_exists actor username tenant (some roles) none now name a plain super h = h
set_super tenant_exists actor username tenant (some roles) (some b) now name a plain super h =
    by_checks (resolve_target tenant_exists actor tenant roles) refl (check_account actor (some b))
      h
  where
    by_checks :
        (r : Checked ℤ)
        → resolve_target tenant_exists actor tenant roles ≡ r
        → (c : Option RbacError)
        → find_account name (set_checked actor username roles r c now).1 ≡ some a
        → find_account name now ≡ some a
    by_checks (refused e) e' c h' = h'
    by_checks (accepted t) e' (some e) h' = h'
    by_checks (accepted t) e' none h' =
        guarded_super actor username t roles name now a
          (resolve_plain tenant_exists actor tenant t roles plain e') h' super

append_super :
    (name : String) (rows : List Account) (n a : Account)
    → contains_role n.roles role_super_admin ≡ false
    → contains_role a.roles role_super_admin ≡ true
    → find_account name (rows ++ (n ∷ [])) ≡ some a
    → find_account name rows ≡ some a
unfolding find_account
append_super name [] n a plain super h = by_name (str_eq n.username name) h
  where
    by_name : (b : Bool) → (if b then some n else none) ≡ some a → none ≡ some a
    by_name false h' = h'
    by_name true h' =
        let clash : contains_role n.roles role_super_admin
            ≡ contains_role a.roles role_super_admin =
          ap super_row h' in
        cc
append_super name (x ∷ rows) n a plain super h =
    let named : Account → Bool = λ y. str_eq y.username name in
    elim (Bool-cases (str_eq x.username name)) [
      | inl here ↦
          find_first-hit named x rows here
          ∙ sym (find_first-hit named x (rows ++ (n ∷ [])) here)
          ∙ h
      | inr apart ↦
          find_first-miss named x rows apart
          ∙ append_super name rows n a plain super
              (sym (find_first-miss named x (rows ++ (n ∷ [])) apart) ∙ h)
    ]

create_super :
    (tenant_exists : ℤ → Bool) (actor : Option User) (username h : String) (tenant : ℤ)
    (roles : Option (List String)) (now : List Account) (name : String) (a : Account)
    → is_super actor ≡ false
    → contains_role a.roles role_super_admin ≡ true
    → find_account name (create_normal tenant_exists actor username h tenant roles now).1 ≡ some a
    → find_account name now ≡ some a
create_super tenant_exists actor username h tenant none now name a plain super e = e
create_super tenant_exists actor username h tenant (some roles) now name a plain super e =
    by_target (resolve_target tenant_exists actor tenant roles) refl e
  where
    by_target :
        (r : Checked ℤ)
        → resolve_target tenant_exists actor tenant roles ≡ r
        → find_account name (create_in username h roles r now).1 ≡ some a
        → find_account name now ≡ some a
    by_target (refused x) e' h' = h'
    by_target (accepted t) e' h' =
        by_name (any_of (λ y. str_eq y.username username) now)
          (resolve_plain tenant_exists actor tenant t roles plain e') h'
      where
        by_name :
            (there : Bool)
            → contains_role roles role_super_admin ≡ false
            → find_account name (insert_row there (new_account username t roles h) now).1 ≡ some a
            → find_account name now ≡ some a
        by_name true p e'' = e''
        by_name false p e'' = append_super name now (new_account username t roles h) a p super e''

-- Nobody but a super administrator makes one: an account that is one after a change of roles or a
-- creation was one before.
pub no_new_super :
    (trim : String → String) (tenant_exists : ℤ → Bool) (byte_len : String → ℕ)
    (hash : String → String) (actor : Option User) (username password : String) (tenant : ℤ)
    (roles : List String) (seen now : List Account) (name : String) (a : Account)
    → is_super actor ≡ false
    → contains_role a.roles role_super_admin ≡ true
    → (find_account name
          (set_tenant_roles trim tenant_exists actor username tenant roles seen now).1
        ≡ some a)
      ⊎ (find_account name
            (create_account trim tenant_exists byte_len hash actor username password tenant roles
              now).1
          ≡ some a)
    → find_account name now ≡ some a
no_new_super trim tenant_exists byte_len hash actor username password tenant roles seen now name a
      plain super (inl h) =
    set_super tenant_exists actor username tenant (normalize_roles trim roles)
      (find_account username seen) now name a plain super (unfold set_tenant_roles in h)
no_new_super trim tenant_exists byte_len hash actor username password tenant roles seen now name a
      plain super (inr h) =
    by_input (str_eq (trim username) "" || str_eq password "")
      (elim (validate_password byte_len "" password) [ none ↦ true | some e ↦ false ])
      (unfold create_account in h)
  where
    made : Checked (Unit {0}) × List Account
    made =
        create_normal tenant_exists actor username (hash password) tenant
          (normalize_roles trim roles) now

    by_input :
        (missing valid : Bool)
        → find_account name
            (if missing then (refused missing_name, now) else reset_valid valid made now).1
          ≡ some a
        → find_account name now ≡ some a
    by_input true valid e = e
    by_input false false e = e
    by_input false true e =
        create_super tenant_exists actor username (hash password) tenant
          (normalize_roles trim roles) now name a plain super e
