-- ===== src/Task/Owner/Reads.antt =====
-- The checks of task.go only read: what they answer when statements fail.
use iflygo.Prelude.{
  ℕ, ◌≡◌, refl, String, Bool, true, false, Option, none, some, List, [], ◌∷◌, if◌then◌else◌,
}
use iflygo.Access.{User, Scope}
use iflygo.Task.Rows.{TaskRow, TaskDb}
use iflygo.Task.Db.{
  Error, err, World, at, Db, pure, fail, query, statement, or_default, ◌>>=◌, unless_error,
  not_found, not_owner, no_deploy, command_only_admin,
}
use iflygo.Db.Atomic.{Post}
use iflygo.Task.Owner.{
  Service, OwnerMode, on, off, inherit, check_task_owner, check_task_deploy, check_mode,
  check_creator, check_component, check_component_id, check_authorized, is_privileged,
  owner_mode_for,
}
use iflygo.Task.Owner.Checks.{is_ok}

module _ (s : Service) (sc : Scope) (actor : Option User) where
  -- The checks let the actor work on the task.
  abbrev pub owner_ok : TaskDb → Bool
  owner_ok d = is_ok (check_task_owner s sc actor (at d [])).0

  abbrev pub deploy_ok : TaskDb → Bool
  deploy_ok d = is_ok (check_task_deploy s sc actor (at d [])).0

-- An action that changes nothing, and that succeeds with failures only if it does without.
pub record Checks (m : Db (Unit {0})) : Type 0 where
  pub checks :
      (d : TaskDb) (faults : List Bool)
      → Post (λ u d'. (d' ≡ d) × (is_ok (m (at d [])).0 ≡ true)) (λ d'. d' ≡ d) (m (at d faults))

pure-Checks : Checks (pure tt)
pure-Checks = record { checks = λ d faults. (refl, refl) }

fail-Checks : (e : Error) → Checks (fail e)
fail-Checks e = record { checks = λ d faults. refl }

unless-Checks : (b : Bool) (e : Error) → Checks (unless_error b e)
unless-Checks true e = pure-Checks
unless-Checks false e = fail-Checks e

-- A query whose error counts as "none", followed by a check of its result that refuses none.
read-Checks :
    {A : Type 0} (f : TaskDb → Option A) (e : Error) (k : Option A → Db (Unit {0}))
    → ((w : World) → k none w ≡ (err e, w))
    → ((o : Option A) → Checks (k o))
    → Checks (or_default none (query f) >>= k)
unfolding or_default statement ◌>>=◌
read-Checks f e k h hk = record { checks = read_checks }
  where
    read_checks :
        (d : TaskDb) (faults : List Bool)
        → Post
            (λ u d'. (d' ≡ d) × (is_ok ((or_default none (query f) >>= k) (at d [])).0 ≡ true))
            (λ d'. d' ≡ d)
            ((or_default none (query f) >>= k) (at d faults))
    read_checks d [] = (hk (f d)).checks d []
    read_checks d (true ∷ faults) = rw (h (at d faults)) refl
    read_checks d (false ∷ faults) = (hk (f d)).checks d faults

check_creator-Checks :
    (s : Service) (mode : OwnerMode) (username : String) (t : Option TaskRow)
    → Checks (check_creator s mode username t)
check_creator-Checks s mode username none = fail-Checks not_found
check_creator-Checks s mode username (some t) = unless-Checks _ not_owner

check_mode-Checks :
    (s : Service) (mode : OwnerMode) (sc : Scope) (username : String)
    → Checks (check_mode s mode sc username)
check_mode-Checks s on sc username =
    read-Checks _ not_found _ (λ w. refl) (check_creator-Checks s on username)
check_mode-Checks s off sc username =
    read-Checks _ not_found _ (λ w. refl) (check_creator-Checks s off username)
check_mode-Checks s inherit sc username = pure-Checks

if-Checks : (b : Bool) (m : Db (Unit {0})) → Checks m → Checks (if b then pure tt else m)
if-Checks true m h = pure-Checks
if-Checks false m h = h

pub owner-Checks :
    (s : Service) (sc : Scope) (actor : Option User) → Checks (check_task_owner s sc actor)
unfolding check_task_owner
owner-Checks s sc none = pure-Checks
owner-Checks s sc (some u) =
    if-Checks (is_privileged (some u)) _
      (check_mode-Checks s (owner_mode_for s u.username) sc u.username)

check_component-Checks :
    (s : Service) (sc : Scope) (u : User) (t : Option TaskRow) → Checks (check_component s sc u t)
check_component-Checks s sc u none = fail-Checks not_found
check_component-Checks s sc u (some t) = id-Checks t.component
  where
    authorized-Checks : (id : ℕ) (o : Option String) → Checks (check_authorized s u id o)
    authorized-Checks id none = fail-Checks not_found
    authorized-Checks id (some name) = unless-Checks _ no_deploy

    id-Checks : (o : Option ℕ) → Checks (check_component_id s sc u o)
    id-Checks none = fail-Checks command_only_admin
    id-Checks (some id) = authorized-Checks id (s.component_name sc id)

pub deploy-Checks :
    (s : Service) (sc : Scope) (actor : Option User) → Checks (check_task_deploy s sc actor)
unfolding check_task_deploy
deploy-Checks s sc none = pure-Checks
deploy-Checks s sc (some u) =
    if-Checks (is_privileged (some u)) _
      (read-Checks _ not_found _ (λ w. refl) (check_component-Checks s sc u))
