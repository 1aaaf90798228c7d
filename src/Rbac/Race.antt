-- ===== src/Rbac/Race.antt =====
-- `Delete` and `ResetPassword` of internal/rbac/rbac.go when others write between the check and the
-- write.
use iflygo.Prelude.{
  ℕ, ◌≡◌, refl, sym, ap, ◌∙◌, String, true, false, not, Option, none, some, List, [], ◌∷◌, map,
  arith, str_eq, any_of, keep_if, Bool-cases, inl, inr, find_first-miss,
}
use iflygo.Access.{User, validate_password}
use iflygo.Rbac.{
  Account, find_account, is_outside, is_self, delete_account, reset_password, with_password,
}

found-any :
    (name : String) (rows : List Account) (a : Account)
    → find_account name rows ≡ some a
    → any_of (λ x. str_eq x.username name) rows ≡ true
unfolding find_account
found-any name [] a h = cc
found-any name (x ∷ rows) a h = elim (Bool-cases (str_eq x.username name)) [
  | inl here ↦ rw here refl
  | inr apart ↦
      rw apart (
        found-any name rows a
          (sym (find_first-miss (λ y. str_eq y.username name) x rows apart) ∙ h))
]

deleted-none :
    (name : String) (rows : List Account)
    → find_account name (keep_if (λ x. not (str_eq x.username name)) rows) ≡ none
unfolding find_account
deleted-none name [] = refl
deleted-none name (x ∷ rows) = elim (Bool-cases (str_eq x.username name)) [
  | inl here ↦ rw here (deleted-none name rows)
  | inr apart ↦ rw apart (rw apart (deleted-none name rows))
]

password-found :
    (name h : String) (rows : List Account) (a : Account)
    → find_account name rows ≡ some a
    → find_account name (map (with_password name h) rows) ≡ some (record a { password_hash = h })
unfolding find_account
password-found name h [] a e = cc
password-found name h (x ∷ rows) a e = elim (Bool-cases (str_eq x.username name)) [
  | inl here ↦
      let same : x ≡ a = ground arith in
      let written : Account → Option Account = λ y. some (record y { password_hash = h }) in
      rw here (rw here (ap written same))
  | inr apart ↦ rw apart (rw apart (password-found name h rows a (ground arith)))
]

-- If the account that is checked is one that the actor may delete and whose password the actor may
-- set, then `Delete` removes, and `ResetPassword` gives the new password to, whatever account has the
-- name when they write: also one that has become an administrator since the check.
pub stale_check :
    (byte_len : String → ℕ) (hash : String → String) (actor : Option User)
    (username password : String) (seen now : List Account) (old new : Account)
    → find_account username seen ≡ some old
    → find_account username now ≡ some new
    → is_outside actor old ≡ false
    → str_eq username "" ≡ false
    → is_self actor username ≡ false
    → validate_password byte_len "" password ≡ none
    → (find_account username (delete_account actor username seen now).1 ≡ none)
      × (find_account username (reset_password byte_len hash actor username password seen now).1
          ≡ some (record new { password_hash = hash password }))
unfolding delete_account reset_password
stale_check byte_len hash actor username password seen now old new e e' inside named other valid = (
  rw (named, other, e, inside, found-any username now new e') (deleted-none username now),
  rw (named, valid, e, inside, found-any username now new e')
      (password-found username (hash password) now new e'),
)
